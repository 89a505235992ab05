-- ===== src/Bus/Blocking.antt =====
-- A blocking call of the bus, burst_read or burst_write of src/simple_bus.cpp, made by the only
-- thread of the program. SystemC wakes the thread at the rising edge that follows the notification
-- of `transfer_done`; the slaves' processes run at every rising edge, the bus at every falling one.
use simple_bus_mdu.Prelude.{
  ℕ, zero, suc, Bool, true, false, Option, none, some, map, Outcome, returns, fault, out_of_bounds,
  get_elem?, ◌==◌, ◌>>=◌, if◌then◌else◌,
}
use simple_bus_mdu.Types.{Status, SlaveIf}
use simple_bus_mdu.Bus.Forms.{Bus, burst}
use simple_bus_mdu.Bus.Service.{main_action}

-- Is it the request `i` that the bus has notified?
abbrev pub wakes : ℕ → Option ℕ → Bool
wakes i none = false
wakes i (some j) = j == i

-- The thread goes on when its call has come back; `none` if the fuel ran out before.
infixl 5 ◌>>=?◌
abbrev pub ◌>>=?◌ :
    {A B : Type 0} → Outcome (Option A) → (A → Outcome (Option B)) → Outcome (Option B)
m >>=? f = m >>= elim [ none ↦ returns none | some a ↦ f a ]

module _ {S : Type 0} ⦃slave_if : SlaveIf S⦄ where
  -- A rising edge: each slave's process runs.
  abbrev pub posedge : Bus S → Bus S
  posedge b = record b { slave_port = map slave_if.posedge b.slave_port }

  -- `wait(request->transfer_done); wait(clock->posedge_event());` for at most as many cycles as the
  -- fuel; `none` if the thread still waits then.
  unfoldable pub await : ℕ → ℕ → Bus S → Outcome (Option (Bus S))
  await zero i b = returns none
  await (suc fuel) i b = main_action b >>= λ (b', woken).
      let rest = await fuel i (posedge b') in
      if wakes i woken then returns (some (posedge b')) else rest

  -- `return request->status`
  unfoldable pub status_of : ℕ → Option (Bus S) → Outcome (Option (Status × Bus S))
  status_of i none = returns none
  status_of i (some b) = elim (get_elem? b.requests i) [
    | none ↦ fault out_of_bounds
    | some r ↦ returns (some (r.status, b))
  ]

  -- The whole call, with `lock` at its default, false, and `length` at its default, 1, in the
  -- masters of this repository.
  unfoldable pub blocking :
      Bool → ℕ → Bus S → ℕ → ℕ → ℕ → ℕ → Bool → Outcome (Option (Status × Bus S))
  blocking do_write fuel b p at start length lock =
      let (i, b') = burst do_write b p at start length lock in
      await fuel i b' >>= λ woken. status_of i woken

  abbrev pub burst_read : ℕ → Bus S → ℕ → ℕ → ℕ → ℕ → Bool → Outcome (Option (Status × Bus S))
  burst_read = blocking false

  abbrev pub burst_write : ℕ → Bus S → ℕ → ℕ → ℕ → ℕ → Bool → Outcome (Option (Status × Bus S))
  burst_write = blocking true
