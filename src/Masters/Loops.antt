-- ===== src/Masters/Loops.antt =====
-- The three test masters as modules, and their endless loops for a number of rounds:
-- simple_bus_headers/simple_bus_master_blocking.h, simple_bus_master_non_blocking.h and
-- simple_bus_master_direct.h, with src/simple_bus_master_*.cpp. The clock has a period of 1 ns, as in
-- simple_bus_test.h, with rising edges at the whole ns.
use simple_bus_mdu.Prelude.{ℕ, zero, suc, ◌-◌, Bool, Option, some, Outcome, returns, ◌>>=◌}
use simple_bus_mdu.Types.{SlaveIf}
use simple_bus_mdu.Bus.Forms.{Bus}
use simple_bus_mdu.Bus.Blocking.{◌>>=?◌}
use simple_bus_mdu.Masters.Rounds.{
  tick, direct_round, blocking_round, non_blocking_round, next_round,
}

-- `simple_bus_master_blocking`
pub record BlockingMaster : Type 0 where
  pub m_unique_priority : ℕ
  pub m_address : ℕ
  pub m_lock : Bool
  pub m_timeout : ℕ

-- `simple_bus_master_non_blocking`
pub record NonBlockingMaster : Type 0 where
  pub m_unique_priority : ℕ
  pub m_start_address : ℕ
  pub m_lock : Bool
  pub m_timeout : ℕ

-- `simple_bus_master_direct`; `m_verbose` only prints.
pub record DirectMaster : Type 0 where
  pub m_address : ℕ
  pub m_timeout : ℕ

module _ {S : Type 0} ⦃slave_if : SlaveIf S⦄ where
  -- Cycles in which a thread sleeps. `wait(m_timeout, SC_NS)` ends before the rising edge of its last
  -- instant, which the `wait()` that follows it catches: the two take `m_timeout` cycles, or one where
  -- that is 0.
  unfoldable pub ticks : ℕ → Bus S → Outcome (Bus S)
  ticks zero b = returns b
  ticks (suc n) b = tick b >>= λ b'. ticks n b'

  -- `while (true)` for `n` rounds. The fuel is for each of the calls. The last cycle of a timeout is the
  -- `wait()` with which the next round begins.
  unfoldable pub blocking_rounds : ℕ → ℕ → BlockingMaster → Bus S → Outcome (Option (Bus S))
  unfolding ticks
  blocking_rounds zero fuel master b = returns (some b)
  blocking_rounds (suc n) fuel master b =
      blocking_round fuel b master.m_unique_priority master.m_address master.m_lock >>=? λ b1.
      ticks (master.m_timeout - 1) b1 >>= λ b2. blocking_rounds n fuel master b2

  -- The loop from the address `addr` and the count `cnt` on.
  unfoldable pub non_blocking_rounds :
      ℕ → ℕ → NonBlockingMaster → ℕ → ℕ → Bus S → Outcome (Option (Bus S))
  unfolding ticks
  non_blocking_rounds zero fuel master addr cnt b = returns (some b)
  non_blocking_rounds (suc n) fuel master addr cnt b =
      let (addr', cnt') = next_round master.m_start_address addr cnt in
      non_blocking_round fuel b master.m_unique_priority addr cnt master.m_lock >>=? λ b1.
      ticks (master.m_timeout - 1) b1 >>= λ b2.
      tick b2 >>= λ b3. non_blocking_rounds n fuel master addr' cnt' b3

  -- The first `wait()`, and the loop from its start.
  unfoldable pub non_blocking_action : ℕ → ℕ → NonBlockingMaster → Bus S → Outcome (Option (Bus S))
  unfolding non_blocking_rounds
  non_blocking_action n fuel master b =
      tick b >>= λ b0. non_blocking_rounds n fuel master master.m_start_address 0 b0

  -- No `wait()` for an edge follows the timeout here. Its last rising edge comes after it, and changes
  -- nothing that a direct read sees.
  unfoldable pub direct_rounds : ℕ → DirectMaster → Bus S → Outcome (Bus S)
  unfolding ticks
  direct_rounds zero master b = returns b
  direct_rounds (suc n) master b = direct_round b master.m_address >>= λ b1.
      ticks master.m_timeout b1 >>= λ b2. direct_rounds n master b2
