-- ===== src/Masters/Testcase.antt =====
-- The test masters of the multiplication and division unit: include/mdu_master.h, which uses the
-- blocking interface of the bus, and include/mdu_direct_master.h, which uses the direct one.
use simple_bus_mdu.Prelude.{
  ℕ, ◌+◌, ◌-◌, ◌*◌, ◌%◌, ◌^◌, true, false, Option, some, List, [], ◌∷◌, Outcome, returns, ◌>>=◌,
}
use simple_bus_mdu.Types.{SlaveIf}
use simple_bus_mdu.Bus.Forms.{Bus, update}
use simple_bus_mdu.Bus.Blocking.{◌>>=?◌, blocking}
use simple_bus_mdu.Bus.Service.{direct_read, direct_write}
use simple_bus_mdu.Mdu.Const

-- The cells of the local variables `opA`, `opB` and `data`, whose addresses the master passes on.
abbrev pub op_a_cell : ℕ
op_a_cell = 0

abbrev pub op_b_cell : ℕ
op_b_cell = 1

abbrev pub data_cell : ℕ
data_cell = 2

-- What `mdu_direct_master::do_testcase` prints: mHigh, mLow, `m[high:low]`, div and mod. The 64-bit
-- sum is a bit pattern.
pub record Printed : Type 0 where
  pub m_high : ℕ
  pub m_low : ℕ
  pub m_both : ℕ
  pub div : ℕ
  pub modulo : ℕ

module _ {S : Type 0} ⦃slave_if : SlaveIf S⦄ where
  -- `write(&data, addr)`, which drops the status
  unfoldable pub write : ℕ → Bus S → ℕ → ℕ → Outcome (Option (Bus S))
  write fuel b at address =
      blocking true fuel b Const.priority at address 1 false >>=? λ (st, b'). returns (some b')

  -- `read(addr)`, which drops the status and returns the cell
  unfoldable pub read : ℕ → Bus S → ℕ → Outcome (Option (ℕ × Bus S))
  read fuel b address =
      blocking false fuel b Const.priority data_cell address 1 false >>=? λ (st, b').
      returns (some (b'.cells data_cell, b'))

  -- The arguments of a test case, in the thread's memory.
  abbrev pub with_operands : Bus S → ℕ → ℕ → Bus S
  with_operands b a c = record b { cells = update (update b.cells op_a_cell a) op_b_cell c }

  -- `do_testcase(opA, opB, opcode)`: the result that it prints. The fuel is for each call.
  unfoldable pub do_testcase : ℕ → Bus S → ℕ → ℕ → ℕ → Outcome (Option (ℕ × Bus S))
  do_testcase fuel b a c opcode = write fuel (with_operands b a c) op_a_cell Const.op_a >>=? λ b1.
      write fuel b1 op_b_cell Const.op_b >>=? λ b2. read fuel b2 opcode

  -- The calls of `main_action`, in order: the results that are printed.
  unfoldable pub run_testcases : ℕ → Bus S → List (ℕ × ℕ × ℕ) → Outcome (Option (List ℕ × Bus S))
  run_testcases fuel b [] = returns (some ([], b))
  run_testcases fuel b ((a, c, opcode) ∷ cases) = do_testcase fuel b a c opcode >>=? λ (result, b').
      run_testcases fuel b' cases >>=? λ (results, b''). returns (some (result ∷ results, b''))

  -- `read(addr)` of the direct master
  unfoldable pub read_directly : Bus S → ℕ → Outcome (ℕ × Bus S)
  read_directly b address =
      direct_read b data_cell address >>= λ (done, b'). returns (b'.cells data_cell, b')

  -- `do_testcase(opA, opB)` of the direct master; the results of `direct_write` are dropped.
  unfoldable pub do_testcase_directly : Bus S → ℕ → ℕ → Outcome (Printed × Bus S)
  do_testcase_directly b a c = do
    (done_a, b1) ← direct_write (with_operands b a c) op_a_cell Const.op_a
    (done_b, b2) ← direct_write b1 op_b_cell Const.op_b
    (high, b3) ← read_directly b2 Const.m_high
    (low, b4) ← read_directly b3 Const.m_low
    (high', b5) ← read_directly b4 Const.m_high
    (low', b6) ← read_directly b5 Const.m_low
    (quotient, b7) ← read_directly b6 Const.div
    (remainder, b8) ← read_directly b7 Const.modulo
    returns (
      record {
        m_high = high;
        m_low = low;
        m_both = (high' * 2 ^ 32 + low') % 2 ^ 64;
        div = quotient;
        modulo = remainder;
      },
      b8,
    )

-- `-n`, as an `int`
abbrev pub minus : ℕ → ℕ
minus n = (2 ^ 32 - n) % 2 ^ 32

-- The test cases of `main_action` in include/mdu_master.h.
abbrev pub testcases : List (ℕ × ℕ × ℕ)
testcases =
    (2, 3, Const.m_low)
    ∷ (10, 100, Const.m_low)
    ∷ (minus 1, 123, Const.m_low)
    ∷ (90, 7, Const.div)
    ∷ (90, 7, Const.modulo)
    ∷ (1_000_000_000, 1_000_000_000, Const.m_high)
    ∷ (1_000_000_000, 1_000_000_000, Const.m_low)
    ∷ (500_000_000, minus 400_000_000, Const.m_high)
    ∷ (500_000_000, minus 400_000_000, Const.m_low)
    ∷ []
