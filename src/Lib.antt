-- ===== src/Lib.antt =====
-- Verification of parts of the verifiably-go service: the Go program under verifiably-go/ that
-- issues, holds and verifies digital credentials through interchangeable products. The parts modelled
-- here are those whose state the service keeps itself and those that decide on their own.
--
-- - StatusList: internal/statuslist. Bitstring.antt is bitstring.go, the bit array in its two bit
--   orders (Bitstring.Get and Set are `get` and `assign`); Store.antt is store.go, the store of one list
--   with its counter and its file (Allocate, Revoke, Reinstate, IsRevoked, LoadRawBytes, NewStore). A
--   byte is a natural number under 256, an index a Go int. The handlers allocate an index when they
--   issue a credential, and revoke it later; a verifier reads the published bits.
-- - Issuance: internal/issuance/log.go, the log of issued credentials with its hash chain. Chain,
--   Append and Marks hold the proofs on VerifyChain, Append and MarkRevoked with MarkReinstate;
--   Issuance/Listing.antt is List and Summary.
-- - Otp: internal/handlers/otp.go, the codes by mail that activate a holder, and the mask of addresses.
-- - RateLimit: internal/handlers/ratelimit.go, the sliding window of the issue API.
-- - Jobs: internal/jobs/queue.go, the queue of bulk issuance, as a step relation in which the workers
--   interleave.
-- - Trust: internal/trust/registry.go and store.go, the registry of trusted issuers over the table and in
--   memory; Evaluate and the verifier's handlers ask it.
-- - Delegation: internal/delegation, with the credential of backend/normalized.go. Json.antt is decoded
--   JSON and its readers, Temporal.antt the window of validity, Subject.antt and Extract.antt are
--   extract.go, Evaluate.antt is Evaluate of delegation.go, Build.antt is BuildDelegationCredential of
--   build.go, Build/Claims.antt the rest of it. The verifier's handlers pass the credentials of a
--   presentation to Evaluate and downgrade what it refuses.
--
-- - Jose: internal/jose/jose.go, the ES256 check, with the packages that it calls as the argument
--   `Codecs`. StatusList/Signing.antt is the signature of a list (jws.go) and the self-managed key with
--   its file (selfsigned.go), StatusList/Publication.antt the encodings and claims of a published list
--   (the Publish functions of store.go, bitstring.go and token.go).
-- - StatusListCache: internal/statuslistcache, the verifier's cache of lists. Verify.antt is verifyJWT with
--   verifyES256JWT and decodeDIDJWK, StatusListCache.antt Fetch with its retries, the store in memory and
--   on disk, and a round of the poller. Refinement.antt is the store as one map over calls and restarts,
--   SelfSigned.antt what a list that Signing signs and the check say of each other.
-- - Gates: internal/handlers/delegation.go, what a verifier does to a result. StatusBit.antt reads the bit
--   of a credential in a published list, Verdict.antt is attachDelegationVerdict with the gates of time,
--   revocation and delegation, Cards.antt the card of each credential. A gate asks Delegation's Evaluate,
--   and StatusBit for a list that StatusListCache has; the answers of the cache are one function during a
--   verification.
-- - Presentation: internal/vp/vp.go, the normal form of a presented credential, which Evaluate reads.
-- - SchemaRegistry: internal/adapters/registry/registry.go and schema_store.go, the schemas of all vendors
--   with those that issuers build, and who sees and removes them. The handlers and Gates' cards ask it.
-- - Eligibility: internal/handlers/identity_prefill.go and evaluateEligibility of eligibility.go.
-- - Roles, Auth, StatusLists, Csv: internal/roles, the file of identity providers and the registry of
--   internal/auth, internal/handlers/statuslists.go and csv.go. Trust/ApiKeys.antt is
--   internal/trust/apikeys.go.
--
-- Prelude holds what the parts share: Boolean tests and lists over the native numbers, Go's maps with
-- string keys as association lists (Dict), the functions of package strings (Texts), the alphabet of
-- base64url (UrlSafe), and the result of a fallible call (Outcome).
--
-- Mutexes are not modelled: each method is one step. A write to a file succeeds or fails as an argument
-- says, and a failed write leaves the file, but for the file of providers, which it may cut short. Clocks,
-- random numbers, hashes, base64, compression, ECDSA, time formats, the parsing of times, addresses and
-- JSON, the resolution of DIDs, the network and Unicode folding are arguments, without further hypotheses
-- but where a theorem names them. Every loop is structural recursion, the retries on the attempts that are
-- left, so no fuel is used; a Go int is not bounded, as the sizes are far below 2 ^ 63. Times are natural
-- numbers, in the unit that the file says.
--
-- Not modelled: the JSON-LD proof of a list (ldproof.go), the HTTP handlers beside those named above, the
-- adapters of the remote products, the database and Redis stores, the OIDC calls, and the wiring of the
-- server.
mod Prelude
pub mod StatusList
pub mod Issuance
pub mod Otp
pub mod RateLimit
pub mod Delegation
pub mod Jobs
pub mod Trust
pub mod Jose
pub mod Presentation
pub mod SchemaRegistry
pub mod StatusListCache
pub mod Gates
pub mod Eligibility
pub mod Roles
pub mod Auth
pub mod StatusLists
pub mod Csv
