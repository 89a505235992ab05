-- ===== src/Masters/Results.antt =====
-- What the blocking test master gets from the unit over the bus: include/mdu_master.h.
use simple_bus_mdu.Prelude.{
  ℕ, zero, suc, ◌%◌, ◌≤◌, ◌<◌, ◌≡◌, ◌≢◌, refl, ap, true, false, Option, some, List, [], ◌∷◌,
  Outcome, returns, ◌==◌, arith,
}
use simple_bus_mdu.Bus.Forms.{Bus}
use simple_bus_mdu.Bus.Slaves.{answers}
use simple_bus_mdu.Bus.Blocking.{blocking}
use simple_bus_mdu.Bus.Mounted.{Mounted}
use simple_bus_mdu.Bus.Quiet.{Quiet}
use simple_bus_mdu.Bus.Transactions.{Completed, burst_read-Completed, burst_write-Completed}
use simple_bus_mdu.Mdu.Const
use simple_bus_mdu.Mdu.{Mdu, calculate, mdu}
use simple_bus_mdu.Mdu.Timing.{idle, mdu-KeepsRange, idle-CountsDown, write-op_a, write-op_b}
use simple_bus_mdu.Masters.Testcase.{
  op_a_cell, op_b_cell, data_cell, write, read, with_operands, do_testcase, run_testcases,
}

-- The unit is mounted and idle, and the bus quiet: how a test case finds the system and leaves it.
pub record ReadyUnit (b : Bus Mdu) (k a c n : ℕ) : Type 0 where
  pub quiet : Quiet b
  pub mounted : Mounted b.slave_port k (idle a c n)

-- The test case has printed `v`, and the unit holds its operands.
pub record Printed (call : Outcome (Option (ℕ × Bus Mdu))) (k a c n v : ℕ) : Type 0 where
  pub after : Bus Mdu
  pub computed : call ≡ returns (some (v, after))
  pub ready : ReadyUnit after k a c n

-- An address of the unit, word aligned.
pub record IsUnitAddress (address : ℕ) : Type 0 where
  pub aligned : address % 4 ≡ 0
  pub from : 256 ≤ address
  pub to : address ≤ 319

unit_aligned : (address : ℕ) → IsUnitAddress address → (address % 4 == 0) ≡ true
unit_aligned address u = ground (arith, u.aligned)

unit_answers : (a c n address : ℕ) → IsUnitAddress address → answers (idle a c n) address ≡ true
unit_answers a c n address u = ground (arith, u.from, u.to)

write-Completed :
    (fuel : ℕ) (b : Bus Mdu) (at address k : ℕ) (m : Mdu) (cells : ℕ → ℕ)
    → (c : Completed (blocking true fuel b Const.priority at address 1 false) k m cells)
    → write fuel b at address ≡ returns (some c.after)
unfolding write
write-Completed fuel b at address k m cells c = rw c.computed

read-Completed :
    (fuel : ℕ) (b : Bus Mdu) (address k : ℕ) (m : Mdu) (cells : ℕ → ℕ)
    → (c : Completed (blocking false fuel b Const.priority data_cell address 1 false) k m cells)
    → read fuel b address ≡ returns (some (cells data_cell, c.after))
unfolding read
read-Completed fuel b address k m cells c =
    rw c.computed (ap (λ (f : ℕ → ℕ). returns (some (f data_cell, c.after))) c.stored)

-- On a quiet bus with an idle unit of `n` wait states, `n` at least 1, given more than `n` cycles for
-- each call, a test case prints what the unit calculates of its own operands, at any word aligned
-- address of the unit where the calculation has a result. It leaves the bus quiet and the unit idle
-- with these operands, so that the next test case finds the system ready.
pub do_testcase-Printed :
    (fuel : ℕ) (b : Bus Mdu) (k a0 c0 n a c opcode : ℕ) {v : ℕ}
    → ReadyUnit b k a0 c0 n
    → n ≢ 0
    → n < fuel
    → IsUnitAddress opcode
    → calculate (idle a c n) opcode ≡ returns v
    → Printed (do_testcase fuel b a c opcode) k a c n v
do_testcase-Printed zero b k a0 c0 n a c opcode ready positive enough unit e = elim enough [ ]
do_testcase-Printed (suc fuel) b k a0 c0 n a c opcode {v} ready positive enough unit e =
    let b0 : Bus Mdu = with_operands b a c in
    let quiet0 : Quiet b0 = record {
      current = ready.quiet.current;
      none_pending = ready.quiet.none_pending;
      no_locks = ready.quiet.no_locks;
    } in
    let first =
      burst_write-Completed mdu-KeepsRange b0 Const.priority op_a_cell Const.op_a k (idle a0 c0 n)
        quiet0 ready.mounted refl refl (omega arith) (idle a c0 n) fuel (write-op_a a0 c0 n a)
        (refl, refl) in
    let second =
      burst_write-Completed mdu-KeepsRange first.after Const.priority op_b_cell Const.op_b k
        (idle a c0 n) first.quiet first.mounted refl refl (omega arith) (idle a c n) fuel
        (rw first.stored (write-op_b a c0 n c)) (refl, refl) in
    let third =
      burst_read-Completed mdu-KeepsRange second.after Const.priority data_cell opcode k
        (idle a c n) second.quiet second.mounted (unit_aligned opcode unit)
        (unit_answers a c n opcode unit) (omega arith) n v positive (idle-CountsDown a c n opcode e)
        (suc fuel) in
    let result = third.0 enough in
    record {
      after = result.after;
      computed =
          unfold do_testcase in
          rw
            (
              write-Completed (suc fuel) b0 op_a_cell Const.op_a k (idle a c0 n) b0.cells first,
              write-Completed (suc fuel) first.after op_b_cell Const.op_b k (idle a c n)
                  first.after.cells second,
            )
            (read-Completed (suc fuel) second.after opcode k (idle a c n) _ result);
      ready = record { quiet = result.quiet; mounted = result.mounted };
    }

-- The expected results of a list of test cases, one after the other.
abbrev pub Expects : ℕ → List (ℕ × ℕ × ℕ) → List ℕ → Type 0
Expects n [] vs = vs ≡ []
Expects n ((a, c, opcode) ∷ cases) [] = ⊥
Expects n ((a, c, opcode) ∷ cases) (v ∷ vs) =
    IsUnitAddress opcode × (calculate (idle a c n) opcode ≡ returns v) × Expects n cases vs

-- On a quiet bus with an idle unit of `n` wait states, `n` at least 1, given more than `n` cycles for
-- each call, a thread whose test cases have the expected results `vs` prints `vs`, in order.
pub run_testcases-returns :
    (fuel : ℕ) (b : Bus Mdu) (k a0 c0 n : ℕ) (cases : List (ℕ × ℕ × ℕ)) (vs : List ℕ)
    → ReadyUnit b k a0 c0 n
    → n ≢ 0
    → n < fuel
    → Expects n cases vs
    → (b' : Bus Mdu) × (run_testcases fuel b cases ≡ returns (some (vs, b')))
unfolding run_testcases
run_testcases-returns fuel b k a0 c0 n [] vs ready positive enough h = (b, rw h)
run_testcases-returns fuel b k a0 c0 n ((a, c, opcode) ∷ cases) [] ready positive enough h =
    elim h [ ]
run_testcases-returns fuel b k a0 c0 n ((a, c, opcode) ∷ cases) (v ∷ vs) ready positive enough h =
    let one = do_testcase-Printed fuel b k a0 c0 n a c opcode ready positive enough h.0 h.1 in
    let (b', rest) =
      run_testcases-returns fuel one.after k a c n cases vs one.ready positive enough h.2 in
    (b', rw (one.computed, rest))
