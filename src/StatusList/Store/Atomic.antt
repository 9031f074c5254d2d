-- ===== src/StatusList/Store/Atomic.antt =====
-- Starting, restarting and failing of internal/statuslist/store.go.
use verifiably.Prelude.{
  ℕ, ◌<◌, ◌≡◌, refl, sym, ap, ◌∙◌, Bool, true, false, ◌||◌, none, some, Option, inl, inr, String,
  str_eq, arith, leb, ltb, length, ◌*◌, ◌==◌, ℤ, pos, negsuc, Bool-cases,
}
use verifiably.StatusList.Result.{Result, Error, ok, err}
use verifiably.StatusList.Bitstring.{
  Bitstring, default_bits, size_or_default, new_bitstring, from_bytes,
}
use verifiably.StatusList.Bitstring.Orders.{get-new}
use verifiably.StatusList.Bitstring.Laws.{IsValid, new-IsValid}
use verifiably.StatusList.Store.{
  is_revoked, Store, absent, saved, Node, snapshot, new_bits_for_kind, bits_from_bytes, load_saved,
  load, new_store, allocate, mark, Call, allocates, revokes, reinstates, step,
}
use verifiably.StatusList.Store.Invariant.{
  Inv, allocate_full, allocate_free, mark_below, mark_out, mark_in,
}

new_bits_for_kind_lem :
    (kind : String) (size : ℤ)
    → IsValid (new_bits_for_kind kind size)
      × ((new_bits_for_kind kind size).lsb_first ≡ str_eq kind "token")
unfolding new_bits_for_kind new_bitstring
new_bits_for_kind_lem kind size = elim (Bool-cases (str_eq kind "token")) [
  | inl token ↦ rw token (unfold new_bitstring in (new-IsValid size true), refl)
  | inr other ↦ rw other (unfold new_bitstring in (new-IsValid size false), refl)
]

-- The node that starts over no file.
abbrev fresh_node : String → String → String → Node
fresh_node kind list_id url =
    let mem : Store = record {
      kind = kind;
      list_id = list_id;
      publish_url = url;
      bits = new_bits_for_kind kind (pos default_bits);
      next_free = 0;
    } in
    record { mem = mem; file = saved (snapshot mem) }

new_store-eq :
    (dir io : Bool) (kind list_id url : String) (n : Node)
    → new_store dir io kind list_id url absent ≡ ok n
    → n ≡ fresh_node kind list_id url
unfolding new_store load
new_store-eq dir io kind list_id url n e = ground arith

fresh_node-Inv : (kind list_id url : String) → Inv (fresh_node kind list_id url)
fresh_node-Inv kind list_id url =
    let (valid, order) = new_bits_for_kind_lem kind (pos default_bits) in
    record { valid = valid; order = order; room = omega arith; synced = refl }

fresh_node-clear :
    (kind list_id url : String) (i : ℤ) → is_revoked (fresh_node kind list_id url) i ≡ ok false
unfolding is_revoked new_bits_for_kind
fresh_node-clear kind list_id url i = elim (Bool-cases (str_eq kind "token")) [
  | inl token ↦ rw token (get-new (pos default_bits) true i)
  | inr other ↦ rw other (get-new (pos default_bits) false i)
]

-- A store over no file starts well-formed, in the bit order of its kind, has saved that state, has
-- handed out no index, and answers for every index, one out of range too, that it is not revoked.
pub new_store-Inv :
    (dir io : Bool) (kind list_id url : String) (n : Node)
    → new_store dir io kind list_id url absent ≡ ok n
    → Inv n × (n.mem.next_free ≡ 0) × ((i : ℤ) → is_revoked n i ≡ ok false)
new_store-Inv dir io kind list_id url n e =
    rw (new_store-eq dir io kind list_id url n e)
      (fresh_node-Inv kind list_id url, refl, fresh_node-clear kind list_id url)

-- The raw bytes and the size of a well-formed array give it back, in the order of its kind.
bits_from_bytes_lem :
    (kind : String) (b : Bitstring)
    → IsValid b
    → b.lsb_first ≡ str_eq kind "token"
    → bits_from_bytes kind b.bits (pos b.size) ≡ ok b
unfolding bits_from_bytes from_bytes
bits_from_bytes_lem kind b v order =
    let size_pos = v.size_pos in
    let positive : (b.size == 0) ≡ false = ground arith in
    let room = v.room in
    let long : ltb (length b.bits * 8) b.size ≡ false = ground arith in
    elim (Bool-cases (str_eq kind "token")) [
      | inl token ↦
          rw (token, positive, long)
            (ap (λ l. ok (record b { lsb_first = l })) (sym (order ∙ token)))
      | inr other ↦
          rw (other, positive, long)
            (ap (λ l. ok (record b { lsb_first = l })) (sym (order ∙ other)))
    ]

size_or_default-eq : (n : ℕ) → 0 < n → size_or_default (pos n) ≡ n
size_or_default-eq n h = ground arith

-- A restart over the file that a well-formed store keeps gives that store again: nothing that was
-- acknowledged is lost.
pub new_store_restart :
    (io : Bool) (n : Node)
    → (str_eq n.mem.kind "bitstring" || str_eq n.mem.kind "token") ≡ true
    → str_eq n.mem.list_id "" ≡ false
    → Inv n
    → new_store true io n.mem.kind n.mem.list_id n.mem.publish_url n.file ≡ ok n
unfolding new_store load load_saved
new_store_restart io n kind named h =
    rw (kind, named, h.synced)
      (rw (
        load,
        load_saved,
        size_or_default-eq n.mem.bits.size h.valid.size_pos,
        bits_from_bytes_lem n.mem.kind n.mem.bits h.valid h.order,
      ))

-- What a call returns: an index, nothing, or an error.
abbrev pub as_outcome {ℓ} : {A : Type ℓ} → (A → Option ℕ) → Result A → Result (Option ℕ)
as_outcome f (ok a) = ok (f a)
as_outcome f (err e) = err e

unfoldable pub outcome : Node → Call → Result (Option ℕ)
outcome n (allocates io) = as_outcome some (allocate io n).1
outcome n (revokes io i) = as_outcome (λ _. none) (mark true io n i).1
outcome n (reinstates io i) = as_outcome (λ _. none) (mark false io n i).1

mark_unchanged :
    (v io : Bool) (n : Node) (i : ℤ) {e : Error}
    → Inv n
    → (mark v io n i).1 ≡ err e
    → (mark v io n i).0 ≡ n
mark_unchanged v io n (negsuc i) h failed = rw (mark_below v n h.valid io i)
mark_unchanged v io n (pos i) h failed = elim (Bool-cases (leb n.mem.bits.size i)) [
  | inl out ↦ rw (mark_out v n h.valid io i (ground arith))
  | inr inside ↦ ground (arith, mark_in v n h.valid i (ground arith))
]

allocate_unchanged :
    (io : Bool) (n : Node) {e : Error} → (allocate io n).1 ≡ err e → (allocate io n).0 ≡ n
allocate_unchanged io n failed = elim (Bool-cases (leb n.mem.bits.size n.mem.next_free)) [
  | inl full ↦ rw (allocate_full n io (ground arith))
  | inr free ↦ ground (arith, allocate_free n (ground arith))
]

-- A call that returns an error, also one whose save failed, leaves memory and file as they were.
pub step_error_unchanged :
    (n : Node) (c : Call) {e : Error} → Inv n → outcome n c ≡ err e → step n c ≡ n
unfolding outcome step
step_error_unchanged n (revokes io i) {e} h failed =
    mark_unchanged true io n i {e = e} h (ground arith)
step_error_unchanged n (reinstates io i) {e} h failed =
    mark_unchanged false io n i {e = e} h (ground arith)
step_error_unchanged n (allocates io) {e} h failed = allocate_unchanged io n {e = e} (ground arith)
