-- ===== src/Gates/StatusBit/Examples.antt =====
-- The theorems on published lists at an empty list of the default size, in which one index is revoked.
use mathlib.Core.Bool.{false≢true}
use text.Mathlib.Text.{◌==◌}
use verifiably.Prelude.{
  ◌≡◌, ◌≢◌, refl, true, List, [], ◌∷◌, ◌++◌, none, some, String, arith, eq_iff, pos,
}
use verifiably.Prelude.Outcome.{ok}
use verifiably.StatusList.Bitstring.{
  default_bits, new_bitstring, get, assign, byte_at, bit_pos, write_mask,
}
use verifiably.StatusList.Bitstring.Laws.{new-IsValid}
use verifiably.StatusList.Store.{Store, Node, saved, snapshot, Call, revokes, run, step, mark}
use verifiably.StatusList.Store.Invariant.{Inv}
use verifiably.StatusList.Store.Refinement.{spec_run, view}
use verifiably.StatusList.Signing.{SigningKey, sign_jwt, sign_es256, header_of, joined}
use verifiably.StatusList.Signing.Sample.{written, sample, sample-Lawful}
use verifiably.StatusList.Publication.{
  Compression, encode_zlib_base64url, publish_token_status_list, token_claims,
}
use verifiably.StatusList.Publication.RoundTrip.{Lossless}
use verifiably.Delegation.Json.{Fields, Decoders, empty, field, str, number, object}
use verifiably.Delegation.Extract.{StatusRef}
use verifiably.Jose.{Codecs, fill_bytes}
use verifiably.Gates.StatusBit.{status_bit_revoked}
use verifiably.Gates.StatusBit.Published.{status_bit-token}

abbrev list : Store
list = record {
  kind = "token";
  list_id = "walt-id-token";
  publish_url = "https://issuer.example/status-list/token/walt-id-token";
  bits = new_bitstring (pos default_bits) true;
  next_free = 0;
}

abbrev node : Node
node = record { mem = list; file = saved (snapshot list) }

node-Inv : Inv node
unfolding new_bitstring
node-Inv = record {
  valid = new-IsValid (pos default_bits) true;
  order = refl;
  room = omega arith;
  synced = refl;
}

abbrev stored : Compression
stored = record { gzip = λ b. b; gunzip = λ b. some b; zlib = λ b. b; unzlib = λ b. some b }

stored-Lossless : Lossless stored
stored-Lossless = record { gzip = λ b. refl; zlib = λ b. refl }

abbrev decoders : Decoders
decoders = record {
  to_lower = λ s. s;
  equal_fold = λ s t. s == t;
  parse_int = λ s. pos 0;
  unmarshal = λ s. none;
  parse_layout = λ layout s. none;
}

abbrev key : SigningKey
key = record { x = 5; y = 7; d = 3; kid = ""; iss = "did:jwk:issuer" }

-- The claims of a list that is encoded so.
abbrev claims_of : String → Fields
claims_of encoded = field "iss" (str "did:jwk:issuer") (
    field "sub" (str "https://issuer.example/status-list/token/walt-id-token") (
      field "iat" (number (pos 1000)) (
        field "status_list"
          (object (field "bits" (number (pos 1)) (field "lst" (str encoded) empty))) empty)))

abbrev calls : List Call
calls = revokes true (pos 9) ∷ []

abbrev codecs : Codecs
codecs = sample (λ n. some (claims_of (written (run node calls).mem.bits.bits))) ""

abbrev ref : StatusRef
ref = record {
  type = "TokenStatusList";
  uri = "https://issuer.example/status-list/token/walt-id-token";
  index = pos 9;
  purpose = "revocation";
  issuer = "did:web:issuer";
}

abbrev published : String
published =
    joined (joined (written (2 ∷ [])) (written (4 ∷ [])))
      (written (fill_bytes 32 1 ++ fill_bytes 32 2))

is_published : publish_token_status_list codecs stored (run node calls).mem key 1000 ≡ ok published
unfolding publish_token_status_list sign_jwt sign_es256 header_of token_claims run step mark assign
    byte_at bit_pos write_mask new_bitstring get
is_published = refl

claims_read :
    codecs.unmarshal (codecs.marshal (token_claims codecs stored (run node calls).mem key.iss 1000))
    ≡ some (token_claims codecs stored (run node calls).mem key.iss 1000)
unfolding token_claims encode_zlib_base64url run step mark assign byte_at bit_pos write_mask
    new_bitstring get
claims_read = refl

size_kept : (run node calls).mem.bits.size ≡ default_bits
unfolding run step mark assign byte_at bit_pos write_mask new_bitstring get
size_kept = refl

list_named : encode_zlib_base64url codecs stored (run node calls).mem.bits ≢ ""
unfolding encode_zlib_base64url run step mark assign byte_at bit_pos write_mask new_bitstring get
list_named e =
    false≢true ((eq_iff (encode_zlib_base64url codecs stored (run node calls).mem.bits) "").1 e)

status_bit-token_example :
    status_bit_revoked decoders codecs stored published ref
    ≡ ok ((spec_run (view node) calls).revoked 9)
status_bit-token_example =
    status_bit-token decoders codecs stored
      (sample-Lawful (λ n. some (claims_of (written (run node calls).mem.bits.bits))) "")
      stored-Lossless node calls key 1000 published ref 9 node-Inv size_kept refl claims_read
      list_named refl is_published
