-- ===== src/StatusList/Store.antt =====
-- internal/statuslist/store.go: the persistent allocator and revocation list over one bit array.
-- A store is a node: what is in memory, and what its file holds. The write to a temporary file and
-- the rename that end a save succeed or fail together, as the environment chooses (`io`); a failed
-- save leaves the file as it was. The file is its decoded JSON, or one that does not decode; its
-- base64 text is the raw bytes, or none where it does not decode.
pub mod Invariant
pub mod Atomic
pub mod Refinement
mod Examples
use verifiably.Prelude.{
  ◌-◌, [], ◌∷◌, ℕ, suc, ◌*◌, Bool, true, false, not, ◌||◌, List, Option, none, some, String, str_eq,
  leb, ◌==◌, if◌then◌else◌, ℤ, pos, negsuc, length,
}
use verifiably.StatusList.Result.{
  Result, ok, err, unknown_kind, list_id_required, mkdir_failed, read_failed, parse_failed,
  decode_failed, write_failed, list_full, guard, ◌>>=◌, ◌>>◌,
}
use verifiably.StatusList.Bitstring
use verifiably.StatusList.Bitstring.{
  Bitstring, default_bits, size_or_default, new, new_ietf, from_bytes, get, assign,
}

pub record Store : Type 0 where
  pub kind : String
  pub list_id : String
  pub publish_url : String
  pub bits : Bitstring
  pub next_free : ℕ

-- The JSON envelope of the file, `onDisk`.
pub record OnDisk : Type 0 where
  pub size : ℤ
  pub next_free : ℕ
  pub bits : Option (List ℕ)

pub data File : Type 0 where
  absent unreadable malformed : File
  saved : OnDisk → File

pub record Node : Type 0 where
  pub mem : Store
  pub file : File

-- newBitsForKind
unfoldable pub new_bits_for_kind : String → ℤ → Bitstring
new_bits_for_kind kind size = if str_eq kind "token" then new_ietf size else new size

-- bitsFromBytes
unfoldable pub bits_from_bytes : String → List ℕ → ℤ → Result Bitstring
bits_from_bytes kind raw size =
    if str_eq kind "token" then from_bytes raw size true else from_bytes raw size false

-- What `save` writes.
abbrev pub snapshot : Store → OnDisk
snapshot s = record { size = pos s.bits.size; next_free = s.next_free; bits = some s.bits.bits }

abbrev pub save : Bool → Store → File → Result File
save true s file = ok (saved (snapshot s))
save false s file = err write_failed

-- The parsed file, in `load`.
unfoldable pub load_saved : Store → OnDisk → Result Store
load_saved s d = do
  let size = pos (size_or_default d.size)
  raw ← elim d.bits [ none ↦ err decode_failed | some raw ↦ ok raw ]
  bs ← bits_from_bytes s.kind raw size
  ok (record s { bits = bs; next_free = d.next_free })

unfoldable pub load : Bool → Store → File → Result Node
load io s absent =
    let fresh : Store = record s {
      bits = new_bits_for_kind s.kind (pos default_bits);
      next_free = 0;
    } in
    do file ← save io fresh absent; ok (record { mem = fresh; file = file })
load io s unreadable = err read_failed
load io s malformed = err parse_failed
load io s (saved d) = do loaded ← load_saved s d; ok (record { mem = loaded; file = saved d })

-- NewStore; `dir` tells whether the directory could be made.
unfoldable pub new_store : Bool → Bool → String → String → String → File → Result Node
new_store dir io kind list_id publish_url file = do
  guard (str_eq kind "bitstring" || str_eq kind "token") unknown_kind
  guard (not (str_eq list_id "")) list_id_required
  guard dir mkdir_failed
  load io
      (record {
        kind = kind;
        list_id = list_id;
        publish_url = publish_url;
        bits = record { bits = []; size = 0; lsb_first = false };
        next_free = 0;
      })
      file

-- The end of a method that has changed the memory to `s`: on a failed save the memory is `back`.
abbrev pub commit {ℓ} : {A : Type ℓ} → Bool → Node → Store → Store → A → Node × Result A
commit true n s back a = (record { mem = s; file = saved (snapshot s) }, ok a)
commit false n s back a = (record n { mem = back }, err write_failed)

unfoldable pub allocate : Bool → Node → Node × Result ℕ
allocate io n =
    let s = n.mem in
    if leb s.bits.size s.next_free
    then (n, err list_full)
    else let s' = record s { next_free = suc s.next_free } in
      commit io n s' (record s' { next_free = s'.next_free - 1 }) s.next_free

-- `_ = s.bits.Set(index, prev)`, whose error is dropped
unfoldable pub reset_to : Bitstring → ℤ → Bool → Bitstring
reset_to b i prev = elim (assign b i prev) [ ok b' ↦ b' | err e ↦ b ]

unfoldable pub mark : Bool → Bool → Node → ℤ → Node × Result (Unit {0})
unfolding reset_to
mark v io n i = elim (get n.mem.bits i) [
  | err e ↦ (n, err e)
  | ok prev ↦ elim (assign n.mem.bits i v) [
    | err e ↦ (n, err e)
    | ok b' ↦
        commit io n (record n.mem { bits = b' }) (record n.mem { bits = reset_to b' i prev }) tt
  ]
]

-- Revoke and Reinstate, the same code but for the bit.
abbrev pub revoke : Bool → Node → ℤ → Node × Result (Unit {0})
revoke = mark true

abbrev pub reinstate : Bool → Node → ℤ → Node × Result (Unit {0})
reinstate = mark false

-- IsRevoked
unfoldable pub is_revoked : Node → ℤ → Result Bool
is_revoked n i = get n.mem.bits i

-- LoadRawBytes: it replaces the bit array in memory, and saves nothing.
unfoldable pub load_raw_bytes : List ℕ → ℕ → Node → Node × Result (Unit {0})
load_raw_bytes raw next_free n = elim (bits_from_bytes n.mem.kind raw (pos (length raw * 8))) [
  | err e ↦ (n, err e)
  | ok bs ↦ (record n { mem = record n.mem { bits = bs; next_free = next_free } }, ok tt)
]

-- One call of a client, with the environment's answer to its save.
pub data Call : Type 0 where
  allocates : Bool → Call
  revokes reinstates : Bool → ℤ → Call

unfoldable pub step : Node → Call → Node
step n (allocates io) = (allocate io n).0
step n (revokes io i) = (revoke io n i).0
step n (reinstates io i) = (reinstate io n i).0

unfoldable pub run : Node → List Call → Node
run n [] = n
run n (c ∷ cs) = run (step n c) cs
