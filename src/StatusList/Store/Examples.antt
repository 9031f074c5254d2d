-- ===== src/StatusList/Store/Examples.antt =====
-- The theorems on the status list store at a small token list, and runs of its methods.
use verifiably.Prelude.{◌≡◌, refl, true, false, [], ◌∷◌, arith, pos}
use verifiably.StatusList.Result.{ok, err, write_failed}
use verifiably.StatusList.Bitstring.{new_ietf, bit_pos, byte_at, get, assign, write_mask, test_mask}
use verifiably.StatusList.Store.{
  new_bits_for_kind, Store, Node, absent, saved, snapshot, new_store, load, mark, is_revoked,
  allocates, revokes, step, run,
}
use verifiably.StatusList.Store.Invariant.{Inv, step-Inv}
use verifiably.StatusList.Store.Atomic.{new_store_restart, outcome, step_error_unchanged}
use verifiably.StatusList.Store.Refinement.{
  Counts, spec_step, spec_run, run-refines, allocations, allocations-Counts,
}

-- Two of sixteen indices are handed out, and index 1 is revoked.
abbrev list : Store
list = record {
  kind = "token";
  list_id = "v1";
  publish_url = "https://issuer.example/status-list/token/v1";
  bits = record { bits = 2 ∷ 0 ∷ []; size = 16; lsb_first = true };
  next_free = 2;
}

abbrev node : Node
node = record { mem = list; file = saved (snapshot list) }

node-Inv : Inv node
node-Inv = record {
  valid = record { size_pos = omega arith; bytes = omega arith; room = omega arith };
  order = refl;
  room = omega arith;
  synced = refl;
}

step-Inv_example : Inv (step node (revokes true (pos 0)))
step-Inv_example = step-Inv node (revokes true (pos 0)) node-Inv

new_store_restart_example :
    new_store true false "token" "v1" "https://issuer.example/status-list/token/v1" node.file
    ≡ ok node
new_store_restart_example = new_store_restart false node refl refl node-Inv

failed : outcome node (revokes false (pos 0)) ≡ err write_failed
unfolding outcome mark get assign byte_at bit_pos write_mask test_mask
failed = refl

step_error_unchanged_example : step node (revokes false (pos 0)) ≡ node
step_error_unchanged_example =
    step_error_unchanged node (revokes false (pos 0)) {e = write_failed} node-Inv failed

allocations-Counts_example :
    Counts node (allocations node (allocates true ∷ allocates false ∷ allocates true ∷ []))
allocations-Counts_example =
    allocations-Counts node (allocates true ∷ allocates false ∷ allocates true ∷ []) node-Inv

run-refines_example :
    (is_revoked (run node (revokes true (pos 0) ∷ allocates true ∷ [])) (pos 0) ≡ ok true)
    × ((run node (revokes true (pos 0) ∷ allocates true ∷ [])).mem.next_free ≡ 3)
    × ((run node (revokes true (pos 0) ∷ allocates true ∷ [])).mem.bits.size ≡ 16)
unfolding spec_run spec_step
run-refines_example = run-refines node (revokes true (pos 0) ∷ allocates true ∷ []) 0 node-Inv

-- The start over no file, at the size of the program.
abbrev started : Node
started = record {
  mem = record list { bits = new_ietf (pos 131072); next_free = 0 };
  file = saved (snapshot (record list { bits = new_ietf (pos 131072); next_free = 0 }));
}

starts : new_store true true "token" "v1" list.publish_url absent ≡ ok started
unfolding new_store load new_bits_for_kind
starts = refl
