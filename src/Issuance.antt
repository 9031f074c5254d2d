-- ===== src/Issuance.antt =====
-- internal/issuance/log.go: the audit log of issued credentials, with its file. A time is the number
-- of its instant, 0 being the zero time; the clock, SHA-256, the time format and the lower-casing of
-- Unicode text are arguments. A save writes a temporary file and renames it, and succeeds or fails
-- as the environment chooses (`io`). The mutex is not modelled: each method is one step.
pub mod Chain
pub mod Positions
pub mod Marks
pub mod Append
pub mod Listing
mod Examples
use Prim.Native.String.{◌++◌ as append_text}
use text.Mathlib.Text.{◌==◌}
use verifiably.Prelude.{
  ℕ, zero, suc, Bool, true, false, not, ◌&&◌, ◌||◌, Option, none, some, List, [], ◌∷◌, ◌++◌, map,
  String, if◌then◌else◌, ltb, ◌==◌ as nat_eq, set, any,
}
use verifiably.Prelude.Outcome.{Outcome, ok, err}
use verifiably.Prelude.Dict.{Dict}

pub record StatusListEntry : Type 0 where
  pub type : String
  pub list_id : String
  pub index : ℕ

pub record IssuedCredential : Type 0 where
  pub id : String
  pub schema_id : String
  pub schema_name : String
  pub std : String
  pub format : String
  pub issuer_dpg : String
  pub owner_key : String
  pub holder_hint : String
  pub subject_fields : Dict String
  pub offer_uri : String
  pub issued_at : ℕ
  pub revoked_at : Option ℕ
  pub status_list : Option StatusListEntry
  pub prev_hash : String
  pub source : String

pub record Filter : Type 0 where
  pub query : String
  pub std : String
  pub format : String
  pub state : String
  pub owner_key : String

pub data Error : Type 0 where
  path_empty mkdir_failed read_failed parse_failed write_failed : Error
  id_required id_exists id_not_found : Error

-- The file at the log's path; `empty` has no byte.
pub data File : Type 0 where
  absent unreadable malformed empty : File
  saved : List IssuedCredential → File

pub record Log : Type 0 where
  pub items : List IssuedCredential
  pub file : File

-- What the JSON of an entry keeps: `Source` is not persisted.
abbrev pub persisted : IssuedCredential → IssuedCredential
persisted c = record c { source = "" }

unfoldable pub load : File → Outcome Error Log
load absent = ok (record { items = []; file = absent })
load unreadable = err read_failed
load malformed = err parse_failed
load empty = ok (record { items = []; file = empty })
load (saved items) = ok (record { items = items; file = saved items })

-- NewLog; `dir` tells whether the directory could be made.
unfoldable pub new_log : String → Bool → File → Outcome Error Log
new_log path dir file =
    if path == "" then err path_empty else if dir then load file else err mkdir_failed

-- The end of a method that has set the memory to `items`: on a failed save the memory is `back`.
abbrev pub commit :
    Bool
    → Log
    → List IssuedCredential
    → List IssuedCredential
    → IssuedCredential
    → Log × Outcome Error IssuedCredential
commit true log items back c = (record { items = items; file = saved (map persisted items) }, ok c)
commit false log items back c = (record log { items = back }, err write_failed)

-- l.items[:len(l.items)-1]
unfoldable pub drop_last : List IssuedCredential → List IssuedCredential
drop_last [] = []
drop_last (c ∷ []) = []
drop_last (c ∷ d ∷ rest) = c ∷ drop_last (d ∷ rest)

abbrev pub terminated : String → String
terminated s = append_text s "\0"

-- A missing issuance time becomes the clock's.
abbrev pub stamped : ℕ → IssuedCredential → IssuedCredential
stamped now c = if nat_eq c.issued_at 0 then record c { issued_at = now } else c

module _ (sha256_hex : String → String) (rfc3339_nano : ℕ → String) where
  -- ChainHashOf
  unfoldable pub chain_hash_of : IssuedCredential → String
  chain_hash_of c = sha256_hex (
      append_text (terminated c.id) (
        append_text (terminated c.schema_id) (
          append_text (terminated c.issuer_dpg) (
            append_text (terminated c.owner_key)
              (append_text (terminated (rfc3339_nano c.issued_at)) (terminated c.prev_hash))))))

  -- c.PrevHash = ChainHashOf(l.items[len(l.items)-1]), where there is such an entry
  unfoldable pub linked : List IssuedCredential → IssuedCredential → IssuedCredential
  linked [] c = c
  linked (d ∷ []) c = record c { prev_hash = chain_hash_of d }
  linked (d ∷ e ∷ rest) c = linked (e ∷ rest) c

  unfoldable pub append : Bool → ℕ → IssuedCredential → Log → Log × Outcome Error IssuedCredential
  append io now c log =
      if c.id == ""
      then (log, err id_required)
      else if any (λ existing. existing.id == c.id) log.items
      then (log, err id_exists)
      else let c' = linked log.items (stamped now c) in
        commit io log (log.items ++ c' ∷ []) (drop_last (log.items ++ c' ∷ [])) c'

  -- The loop of VerifyChain, from the entry after `prev`, which has index `i`; a broken link is the
  -- index of its entry.
  unfoldable pub verify_from : IssuedCredential → ℕ → List IssuedCredential → List ℕ
  verify_from prev i [] = []
  verify_from prev i (c ∷ rest) =
      let later = verify_from c (suc i) rest in
      if c.prev_hash == ""
      then later
      else if c.prev_hash == chain_hash_of prev
      then later
      else i ∷ later

  unfoldable pub verify_chain : List IssuedCredential → List ℕ
  verify_chain [] = []
  verify_chain (c ∷ rest) = verify_from c 1 rest

-- Get: the first entry of the id
unfoldable pub get : List IssuedCredential → String → Option IssuedCredential
get [] id = none
get (c ∷ rest) id = if c.id == id then some c else get rest id

-- The place of that entry, where the loops of MarkRevoked and MarkReinstate stop.
unfoldable pub locate : List IssuedCredential → String → Option (ℕ × IssuedCredential)
locate [] id = none
locate (c ∷ rest) id =
    if c.id == id
    then some (zero, c)
    else elim (locate rest id) [ none ↦ none | some (i, d) ↦ some (suc i, d) ]

-- ownerKey != "" && c.OwnerKey != ownerKey
abbrev pub is_foreign : String → IssuedCredential → Bool
is_foreign owner_key c = not (owner_key == "") && not (c.owner_key == owner_key)

abbrev pub with_revoked_at : Option ℕ → IssuedCredential → IssuedCredential
with_revoked_at t c = record c { revoked_at = t }

revoke_at : Bool → ℕ → String → Log → ℕ → IssuedCredential → Log × Outcome Error IssuedCredential
revoke_at io now owner_key log i c =
    if is_foreign owner_key c then (log, err id_not_found) else elim c.revoked_at [
      | some t ↦ (log, ok c)
      | none ↦
          let items = set log.items i (with_revoked_at (some now) c) in
          commit io log items (set items i (with_revoked_at none c)) (with_revoked_at (some now) c)
    ]

unfoldable pub mark_revoked :
    Bool → ℕ → String → String → Log → Log × Outcome Error IssuedCredential
unfolding revoke_at
mark_revoked io now id owner_key log = elim (locate log.items id) [
  | none ↦ (log, err id_not_found)
  | some (i, c) ↦ revoke_at io now owner_key log i c
]

-- After a failed save the revocation time is set to the clock, `now`, and not to what it was.
reinstate_at : Bool → ℕ → String → Log → ℕ → IssuedCredential → Log × Outcome Error IssuedCredential
reinstate_at io now owner_key log i c =
    if is_foreign owner_key c then (log, err id_not_found) else elim c.revoked_at [
      | none ↦ (log, ok c)
      | some t ↦
          let items = set log.items i (with_revoked_at none c) in
          commit io log items (set items i (with_revoked_at (some now) c)) (with_revoked_at none c)
    ]

unfoldable pub mark_reinstate :
    Bool → ℕ → String → String → Log → Log × Outcome Error IssuedCredential
unfolding reinstate_at
mark_reinstate io now id owner_key log = elim (locate log.items id) [
  | none ↦ (log, err id_not_found)
  | some (i, c) ↦ reinstate_at io now owner_key log i c
]

abbrev pub is_revoked : IssuedCredential → Bool
is_revoked c = elim c.revoked_at [ none ↦ false | some t ↦ true ]
