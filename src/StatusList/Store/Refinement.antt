-- ===== src/StatusList/Store/Refinement.antt =====
-- internal/statuslist/store.go against what a status list promises: a counter of indices handed
-- out, and a set of revoked indices.
use verifiably.Prelude.{
  ℕ, zero, suc, ◌+◌, ◌<◌, ◌≤◌, ◌≡◌, refl, ap, ◌∙◌, Bool, true, false, inl, inr, List, [], ◌∷◌,
  arith, leb, ltb, ◌==◌, if◌then◌else◌, ℤ, pos, negsuc, length, Bool-cases,
}
use verifiably.StatusList.Result.{Result, ok, err}
use verifiably.StatusList.Bitstring.{get}
use verifiably.StatusList.Bitstring.Laws.{get_total, get-assign, assign-IsValid}
use verifiably.StatusList.Store.{
  Node, allocate, mark, is_revoked, Call, allocates, revokes, reinstates, step, run,
}
use verifiably.StatusList.Store.Invariant.{
  Inv, with_bits, with_next, step-Inv, allocate_full, allocate_free, mark_below, mark_out, mark_in,
}

-- The abstract list.
pub record Spec : Type 0 where
  pub cap : ℕ
  pub next : ℕ
  pub revoked : ℕ → Bool

abbrev pub mark_spec : Bool → Spec → ℤ → Spec
mark_spec v s (negsuc i) = s
mark_spec v s (pos i) =
    if ltb i s.cap then record s { revoked = λ j. if i == j then v else s.revoked j } else s

-- What a call does to the abstract list: nothing where the save fails or the index is out of range.
unfoldable pub spec_step : Spec → Call → Spec
spec_step s (allocates false) = s
spec_step s (allocates true) = if ltb s.next s.cap then record s { next = suc s.next } else s
spec_step s (revokes false i) = s
spec_step s (revokes true i) = mark_spec true s i
spec_step s (reinstates false i) = s
spec_step s (reinstates true i) = mark_spec false s i

unfoldable pub spec_run : Spec → List Call → Spec
spec_run s [] = s
spec_run s (c ∷ cs) = spec_run (spec_step s c) cs

pub record Agrees (n : Node) (s : Spec) : Type 0 where
  pub cap : n.mem.bits.size ≡ s.cap
  pub next : n.mem.next_free ≡ s.next
  pub revoked : (i : ℕ) → get n.mem.bits (pos i) ≡ ok (s.revoked i)

-- The abstract list that a node shows.
abbrev pub bit_or_false : Result Bool → Bool
bit_or_false (ok v) = v
bit_or_false (err e) = false

abbrev pub view : Node → Spec
view n = record {
  cap = n.mem.bits.size;
  next = n.mem.next_free;
  revoked = λ i. bit_or_false (get n.mem.bits (pos i));
}

pub view-Agrees : (n : Node) → Inv n → Agrees n (view n)
view-Agrees n h = record {
  cap = refl;
  next = refl;
  revoked = λ i. let (r, e) = get_total n.mem.bits h.valid (pos i) in rw e;
}

if_agrees :
    (c v w : Bool) {r : Result Bool} → r ≡ ok w → (if c then ok v else r) ≡ ok (if c then v else w)
if_agrees true v w e = refl
if_agrees false v w e = e

mark-Agrees :
    (v : Bool) (n : Node) (s : Spec) (i : ℤ)
    → Inv n
    → Agrees n s
    → Agrees (mark v true n i).0 (mark_spec v s i) × Agrees (mark v false n i).0 s
mark-Agrees v n s (negsuc i) h a =
    (rw (mark_below v n h.valid true i) a, rw (mark_below v n h.valid false i) a)
mark-Agrees v n s (pos i) h a = elim (Bool-cases (ltb i s.cap)) [
  | inr out ↦
      let cap = a.cap in
      let far : n.mem.bits.size ≤ i = ground arith in
      (rw (out, mark_out v n h.valid true i far) a, rw (mark_out v n h.valid false i far) a)
  | inl inside ↦
      let cap = a.cap in
      let near : i < n.mem.bits.size = ground arith in
      let (b, done, kept, failed) = mark_in v n h.valid i near in
      let size = (assign-IsValid n.mem.bits h.valid i v b done).1 in
      (
        rw (inside, kept)
            (record {
              cap = size ∙ a.cap;
              next = a.next;
              revoked = λ j.
                  get-assign n.mem.bits h.valid i v b done j
                  ∙ if_agrees (i == j) v (s.revoked j) (a.revoked j);
            }),
        rw failed a,
      )
]

allocate-Agrees :
    (n : Node) (s : Spec)
    → Agrees n s
    → Agrees (allocate true n).0 (spec_step s (allocates true)) × Agrees (allocate false n).0 s
unfolding spec_step
allocate-Agrees n s a = elim (Bool-cases (ltb s.next s.cap)) [
  | inr full ↦
      let cap = a.cap in
      let next = a.next in
      let none_left : n.mem.bits.size ≤ n.mem.next_free = ground arith in
      (rw (full, allocate_full n true none_left) a, rw (allocate_full n false none_left) a)
  | inl free ↦
      let cap = a.cap in
      let next = a.next in
      let left : n.mem.next_free < n.mem.bits.size = ground arith in
      (
        rw (free, (allocate_free n left).0)
            (record { cap = a.cap; next = ap suc a.next; revoked = a.revoked }),
        rw (allocate_free n left).1 a,
      )
]

-- Each call does to the store what it does to the abstract list.
pub step-Agrees :
    (n : Node) (s : Spec) (c : Call) → Inv n → Agrees n s → Agrees (step n c) (spec_step s c)
unfolding step spec_step
step-Agrees n s (allocates true) h a = (allocate-Agrees n s a).0
step-Agrees n s (allocates false) h a = (allocate-Agrees n s a).1
step-Agrees n s (revokes true i) h a = (mark-Agrees true n s i h a).0
step-Agrees n s (revokes false i) h a = (mark-Agrees true n s i h a).1
step-Agrees n s (reinstates true i) h a = (mark-Agrees false n s i h a).0
step-Agrees n s (reinstates false i) h a = (mark-Agrees false n s i h a).1

pub run-Agrees :
    (n : Node) (s : Spec) (cs : List Call) → Inv n → Agrees n s → Agrees (run n cs) (spec_run s cs)
unfolding run spec_run
run-Agrees n s [] h a = a
run-Agrees n s (c ∷ cs) h a =
    run-Agrees (step n c) (spec_step s c) cs (step-Inv n c h) (step-Agrees n s c h a)

-- From a store that satisfies the invariant, after any calls, saved or not, IsRevoked answers for
-- every index what the abstract list holds after them, and the counter and the size are its own.
pub run-refines :
    (n : Node) (cs : List Call) (i : ℕ)
    → Inv n
    → (is_revoked (run n cs) (pos i) ≡ ok ((spec_run (view n) cs).revoked i))
      × ((run n cs).mem.next_free ≡ (spec_run (view n) cs).next)
      × ((run n cs).mem.bits.size ≡ (spec_run (view n) cs).cap)
unfolding is_revoked
run-refines n cs i h =
    let a = run-Agrees n (view n) cs h (view-Agrees n h) in (a.revoked i, a.next, a.cap)

-- The indices that the calls of a run hand out, in order.
abbrev handed_out : Result ℕ → List ℕ → List ℕ
handed_out (ok i) rest = i ∷ rest
handed_out (err e) rest = rest

unfoldable pub allocations : Node → List Call → List ℕ
allocations n [] = []
allocations n (allocates io ∷ cs) =
    handed_out (allocate io n).1 (allocations (step n (allocates io)) cs)
allocations n (c ∷ cs) = allocations (step n c) cs

abbrev pub count_up : ℕ → ℕ → List ℕ
count_up i zero = []
count_up i (suc k) = i ∷ count_up (suc i) k

-- The indices count up from the node's counter, and stay below its size.
abbrev pub Counts : Node → List ℕ → Type 0
Counts n l =
    (l ≡ count_up n.mem.next_free (length l)) × (n.mem.next_free + length l ≤ n.mem.bits.size)

module _ (n : Node) (h : Inv n) where
  Counts-mark : (v io : Bool) (i : ℤ) (l : List ℕ) → Counts (mark v io n i).0 l → Counts n l
  Counts-mark v io (negsuc i) l c = rw (mark_below v n h.valid io i) at c
  Counts-mark v io (pos i) l c = elim (Bool-cases (leb n.mem.bits.size i)) [
    | inl out ↦ rw (mark_out v n h.valid io i (ground arith)) at c
    | inr inside ↦ by_io io (ground arith) c
  ]
    where
      by_io : (io : Bool) → i < n.mem.bits.size → Counts (mark v io n (pos i)).0 l → Counts n l
      by_io false near c =
          let (b, done, kept, failed) = mark_in v n h.valid i near in rw failed at c
      by_io true near c =
          let (b, done, kept, failed) = mark_in v n h.valid i near in
          let c' : Counts (with_bits n b) l = rw kept at c in
          (c'.0, omega (arith, c'.1, (assign-IsValid n.mem.bits h.valid i v b done).1))

  Counts-allocate :
      (io : Bool) (rest : Node → List ℕ)
      → ((m : Node) → m ≡ (allocate io n).0 → Counts m (rest m))
      → Counts n (handed_out (allocate io n).1 (rest (allocate io n).0))
  Counts-allocate io rest ih = elim (Bool-cases (leb n.mem.bits.size n.mem.next_free)) [
    | inl full ↦ let e = allocate_full n io (ground arith) in rw e (ih n (rw e))
    | inr free ↦ by_io io (ground arith) ih
  ]
    where
      by_io :
          (io : Bool)
          → n.mem.next_free < n.mem.bits.size
          → ((m : Node) → m ≡ (allocate io n).0 → Counts m (rest m))
          → Counts n (handed_out (allocate io n).1 (rest (allocate io n).0))
      by_io false left ih = let e = (allocate_free n left).1 in rw e (ih n (rw e))
      by_io true left ih =
          let e = (allocate_free n left).0 in
          let c = ih (with_next n) (rw e) in rw e (ap (◌∷◌ n.mem.next_free) c.0, omega (arith, c.1))

-- The indices handed out in a run count up by one from the counter: none is skipped, none is handed
-- out twice, and each is below the size.
pub allocations-Counts : (n : Node) (cs : List Call) → Inv n → Counts n (allocations n cs)
unfolding allocations step
allocations-Counts n [] h = (refl, omega (arith, h.room))
allocations-Counts n (allocates io ∷ cs) h =
    Counts-allocate n h io (λ m. allocations m cs)
      (λ m e. allocations-Counts m cs (rw e (step-Inv n (allocates io) h)))
allocations-Counts n (revokes io i ∷ cs) h =
    Counts-mark n h true io i _
      (allocations-Counts (mark true io n i).0 cs (step-Inv n (revokes io i) h))
allocations-Counts n (reinstates io i ∷ cs) h =
    Counts-mark n h false io i _
      (allocations-Counts (mark false io n i).0 cs (step-Inv n (reinstates io i) h))
