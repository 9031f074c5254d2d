-- ===== src/StatusList/Store/Invariant.antt =====
-- The invariant of internal/statuslist/store.go: a well-formed bit array in the order of its kind,
-- a counter within it, and a file that holds what is in memory.
use verifiably.Prelude.{
  ℕ, suc, ◌-◌, ◌≤◌, ◌<◌, ◌≡◌, refl, ◌∙◌, Bool, true, false, List, [], ◌∷◌, inl, inr, str_eq, arith,
  leb, ℤ, pos, negsuc, Bool-cases,
}
use verifiably.StatusList.Result.{ok, err, out_of_range, write_failed, list_full}
use verifiably.StatusList.Bitstring.{Bitstring, get, assign}
use verifiably.StatusList.Bitstring.Laws.{
  IsValid, get_total, assign_cases, assign-IsValid, assign_back,
}
use verifiably.StatusList.Store.{
  saved, Node, snapshot, allocate, reset_to, mark, Call, allocates, revokes, reinstates, step, run,
}

pub record Inv (n : Node) : Type 0 where
  pub valid : IsValid n.mem.bits
  pub order : n.mem.bits.lsb_first ≡ str_eq n.mem.kind "token"
  pub room : n.mem.next_free ≤ n.mem.bits.size
  pub synced : n.file ≡ saved (snapshot n.mem)

-- The node after a write of the bit array that was saved.
abbrev pub with_bits : Node → Bitstring → Node
with_bits n b = record {
  mem = record n.mem { bits = b };
  file = saved (snapshot (record n.mem { bits = b }));
}

reset_to_lem :
    (b b' : Bitstring) (i : ℤ) (prev : Bool) → assign b' i prev ≡ ok b → reset_to b' i prev ≡ b
unfolding reset_to
reset_to_lem b b' i prev e = rw (e, reset_to)

module _ (v : Bool) (n : Node) (valid : IsValid n.mem.bits) where
  pub mark_below : (io : Bool) (i : ℕ) → mark v io n (negsuc i) ≡ (n, err out_of_range)
  unfolding mark get assign
  mark_below io i = refl

  pub mark_out :
      (io : Bool) (i : ℕ) → n.mem.bits.size ≤ i → mark v io n (pos i) ≡ (n, err out_of_range)
  unfolding mark
  mark_out io i h =
      let (prev, e) = get_total n.mem.bits valid (pos i) in
      rw (e, mark)
        (elim (assign_cases n.mem.bits valid i v) [
          | inl (_, _, inside) ↦ absurd (omega arith)
          | inr (refused, _) ↦ rw refused
        ])

  pub mark_in :
      (i : ℕ)
      → i < n.mem.bits.size
      → (b : Bitstring) × (assign n.mem.bits (pos i) v ≡ ok b)
        × (mark v true n (pos i) ≡ (with_bits n b, ok tt))
        × (mark v false n (pos i) ≡ (n, err write_failed))
  unfolding mark
  mark_in i h =
      let (prev, e) = get_total n.mem.bits valid (pos i) in
      elim (assign_cases n.mem.bits valid i v) [
        | inl (b, done, inside) ↦ (
          b,
          done,
          rw (e, mark) (rw done),
          rw (e, mark)
              (rw (done, mark)
                (rw (
                  reset_to_lem n.mem.bits b (pos i) prev
                    (assign_back n.mem.bits valid i v b done prev e)))),
        )
        | inr (_, out) ↦ absurd (omega arith)
      ]

with_bits-Inv :
    (n : Node) (i : ℕ) (v : Bool) (b : Bitstring)
    → Inv n
    → assign n.mem.bits (pos i) v ≡ ok b
    → Inv (with_bits n b)
with_bits-Inv n i v b h done =
    let (valid, size, order) = assign-IsValid n.mem.bits h.valid i v b done in
    record { valid = valid; order = order ∙ h.order; room = rw size h.room; synced = refl }

mark-Inv : (v io : Bool) (n : Node) (i : ℤ) → Inv n → Inv (mark v io n i).0
mark-Inv v io n (negsuc i) h = rw (mark_below v n h.valid io i) h
mark-Inv v io n (pos i) h = elim (Bool-cases (leb n.mem.bits.size i)) [
  | inl out ↦ rw (mark_out v n h.valid io i (ground arith)) h
  | inr inside ↦ by_io io (mark_in v n h.valid i (ground arith))
]
  where
    by_io :
        (io : Bool)
        → (b : Bitstring) × (assign n.mem.bits (pos i) v ≡ ok b)
          × (mark v true n (pos i) ≡ (with_bits n b, ok tt))
          × (mark v false n (pos i) ≡ (n, err write_failed))
        → Inv (mark v io n (pos i)).0
    by_io true (b, done, kept, _) = rw kept (with_bits-Inv n i v b h done)
    by_io false (b, done, _, failed) = rw failed h

-- The node after an allocation that was saved.
abbrev pub with_next : Node → Node
with_next n = record {
  mem = record n.mem { next_free = suc n.mem.next_free };
  file = saved (snapshot (record n.mem { next_free = suc n.mem.next_free }));
}

module _ (n : Node) where
  pub allocate_full :
      (io : Bool) → n.mem.bits.size ≤ n.mem.next_free → allocate io n ≡ (n, err list_full)
  unfolding allocate
  allocate_full io h =
      let full : leb n.mem.bits.size n.mem.next_free ≡ true = ground arith in rw full

  pub allocate_free :
      n.mem.next_free < n.mem.bits.size
      → (allocate true n ≡ (with_next n, ok n.mem.next_free))
        × (allocate false n ≡ (n, err write_failed))
  unfolding allocate
  allocate_free h =
      let free : leb n.mem.bits.size n.mem.next_free ≡ false = ground arith in
      let back : suc n.mem.next_free - 1 ≡ n.mem.next_free = omega arith in
      (rw free, rw (free, back))

allocate-Inv : (io : Bool) (n : Node) → Inv n → Inv (allocate io n).0
allocate-Inv io n h = elim (Bool-cases (leb n.mem.bits.size n.mem.next_free)) [
  | inl full ↦ rw (allocate_full n io (ground arith)) h
  | inr free ↦ by_io io (ground arith)
]
  where
    by_io : (io : Bool) → n.mem.next_free < n.mem.bits.size → Inv (allocate io n).0
    by_io false free = rw (allocate_free n free).1 h
    by_io true free =
        rw (allocate_free n free).0
          (record { valid = h.valid; order = h.order; room = free; synced = refl })

-- Every call keeps the invariant, whether or not its save succeeds.
pub step-Inv : (n : Node) (c : Call) → Inv n → Inv (step n c)
unfolding step
step-Inv n (revokes io i) h = mark-Inv true io n i h
step-Inv n (reinstates io i) h = mark-Inv false io n i h
step-Inv n (allocates io) h = allocate-Inv io n h

-- A store made over an absent file satisfies the invariant, and so does it after any calls.
pub run-Inv : (n : Node) (cs : List Call) → Inv n → Inv (run n cs)
unfolding run
run-Inv n [] h = h
run-Inv n (c ∷ cs) h = run-Inv (step n c) cs (step-Inv n c h)
