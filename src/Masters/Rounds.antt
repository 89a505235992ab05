-- ===== src/Masters/Rounds.antt =====
-- The three test masters that come with the bus, one round of their endless loops each:
-- src/simple_bus_master_direct.cpp, src/simple_bus_master_blocking.cpp and
-- src/simple_bus_master_non_blocking.cpp. The `wait(m_timeout, SC_NS)` between two rounds is left out:
-- the length of a clock cycle is not the masters'.
use simple_bus_mdu.Prelude.{
  ℕ, zero, suc, ◌+◌, Bool, true, false, Option, none, some, Outcome, returns, ◌>>=◌, if◌then◌else◌,
  ltb,
}
use simple_bus_mdu.Types.{u32, SlaveIf}
use simple_bus_mdu.Bus.Forms.{Bus, update, is_finished, get_status, non_blocking}
use simple_bus_mdu.Bus.Service.{main_action, direct_read}
use simple_bus_mdu.Bus.Blocking.{◌>>=?◌, posedge, burst_read, burst_write}

-- `mylength`
abbrev pub burst_length : ℕ
burst_length = 0x10

module _ {S : Type 0} ⦃slave_if : SlaveIf S⦄ where
  -- A `direct_read` whose result is dropped.
  abbrev pub peek : Bus S → ℕ → ℕ → Outcome (Bus S)
  peek b at address = direct_read b at address >>= λ (done, b'). returns b'

  -- The direct master reads four words; `mydata` is the cells 0 to 3.
  unfoldable pub direct_round : Bus S → ℕ → Outcome (Bus S)
  direct_round b address = do
    b1 ← peek b 0 address
    b2 ← peek b1 1 (u32 (address + 4))
    b3 ← peek b2 2 (u32 (address + 8))
    peek b3 3 (u32 (address + 12))

  -- `wait()` for the next rising edge, in a thread that is alone.
  unfoldable pub tick : Bus S → Outcome (Bus S)
  tick b = main_action b >>= λ (b', woken). returns (posedge b')

  -- `mydata[i] += i; wait();` from `i` on, `n` times.
  unfoldable pub add_indices : ℕ → ℕ → Bus S → Outcome (Bus S)
  unfolding tick
  add_indices zero i b = returns b
  add_indices (suc n) i b =
      tick (record b { cells = update b.cells i (u32 (b.cells i + i)) }) >>= add_indices n (suc i)

  -- The blocking master reads a burst, adds its index to each word and writes the burst back; `mydata`
  -- is the cells from 0 on. An error status only prints a message.
  unfoldable pub blocking_round : ℕ → Bus S → ℕ → ℕ → Bool → Outcome (Option (Bus S))
  unfolding tick add_indices
  blocking_round fuel b p address lock = tick b >>= λ b0.
      burst_read fuel b0 p 0 address burst_length lock >>=? λ (st, b1).
      add_indices burst_length 0 b1 >>= λ b2.
      burst_write fuel b2 p 0 address burst_length lock >>=? λ (st, b3). returns (some b3)

  -- `while (status is neither OK nor ERROR) wait();` for at most as many cycles as the fuel.
  unfoldable pub poll : ℕ → Bus S → ℕ → Outcome (Option (Bus S))
  unfolding tick
  poll zero b p = returns none
  poll (suc fuel) b p =
      let (st, b') = get_status b p in
      let next = tick b' >>= λ b''. poll fuel b'' p in
      if is_finished st then returns (some b') else next

  -- The non-blocking master reads a word, adds `cnt`, and writes it back; `mydata` is the cell 0.
  unfoldable pub non_blocking_round : ℕ → Bus S → ℕ → ℕ → ℕ → Bool → Outcome (Option (Bus S))
  unfolding poll
  non_blocking_round fuel b p addr cnt lock = non_blocking false b p 0 addr lock >>= λ b1.
      poll fuel b1 p >>=? λ b2.
      non_blocking true (record b2 { cells = update b2.cells 0 (u32 (b2.cells 0 + cnt)) }) p 0 addr
        lock
      >>= λ b3. poll fuel b3 p

-- The address and the count of the next round.
unfoldable pub next_round : ℕ → ℕ → ℕ → ℕ × ℕ
next_round start addr cnt =
    if ltb (u32 (start + 0x80)) (u32 (addr + 4))
    then (start, 0)
    else (u32 (addr + 4), u32 (cnt + 1))
