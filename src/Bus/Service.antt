-- ===== src/Bus/Service.antt =====
-- What the bus does with a request: src/simple_bus.cpp (main_action, handle_request, direct_read,
-- direct_write).
use simple_bus_mdu.Prelude.{
  ℕ, suc, ◌+◌, ◌%◌, Bool, false, Option, none, some, List, Outcome, returns, fault, out_of_bounds,
  ltb, ◌==◌, if◌then◌else◌, ◌>>=◌, get_elem?, set,
}
use simple_bus_mdu.Types.{Status, ok, request, wait, error, Request, u32, SlaveIf}
use simple_bus_mdu.Bus.Forms.{Bus, update, get_next_request, clear_locks, put}
use simple_bus_mdu.Bus.Slaves.{get_slave}

module _ {S : Type 0} ⦃slave_if : SlaveIf S⦄ where
  -- The `switch` on the slave's status. The second result is the request whose `transfer_done` is
  -- notified.
  unfoldable pub complete : Bus S → ℕ → Request → Status → Bus S × Option ℕ
  complete b i r error = (record (put b i (record r { status = error })) { current = none }, some i)
  complete b i r ok =
      let r' = record r { address = u32 (r.address + 4); data_at = suc r.data_at } in
      if ltb r'.end_address r'.address
      then (record (put b i (record r' { status = ok })) { current = none }, some i)
      else (record (put b i r') { current = none }, none)
  complete b i r wait = (put b i r, none)
  complete b i r request = (put b i r, none)

  -- `slave->write` or `slave->read`, for the slave `s` at the position `k`: its status, and the
  -- slaves and the masters' memory after it.
  unfoldable pub call_slave : Bus S → Request → ℕ → S → Outcome (Status × List S × (ℕ → ℕ))
  call_slave b r k s =
      if r.do_write
      then (slave_if.write s (b.cells r.data_at) r.address >>= λ (st, s').
          returns (st, set b.slave_port k s', b.cells))
      else (slave_if.read s (b.cells r.data_at) r.address >>= λ (st, d, s').
          returns (st, set b.slave_port k s', update b.cells r.data_at d))

  unfoldable pub transfer : Bus S → ℕ → Request → ℕ → S → Outcome (Bus S × Option ℕ)
  transfer b i r k s = call_slave b r k s >>= λ (st, slaves, cells).
      returns (complete (record b { slave_port = slaves; cells = cells }) i r st)

  -- A request that goes wrong before it reaches a slave: nobody is notified.
  abbrev pub reject : Bus S → ℕ → Request → Bus S × Option ℕ
  reject b i r = (record (put b i (record r { status = error })) { current = none }, none)

  -- `handle_request`, with `m_current_request` at the position `i`.
  unfoldable pub handle_request : Bus S → ℕ → Outcome (Bus S × Option ℕ)
  unfolding transfer get_slave
  handle_request b i = elim (get_elem? b.requests i) [
    | none ↦ fault out_of_bounds
    | some r ↦
        if r.address % 4 == 0
        then elim (get_slave b.slave_port r.address) [
          | none ↦ returns (reject b i r)
          | some (k, s) ↦ transfer b i (record r { status = wait }) k s
        ]
        else returns (reject b i r)
  ]

  unfoldable pub pick : Bus S → Outcome (Bus S)
  unfolding get_next_request
  pick b = elim b.current [ none ↦ get_next_request b | some i ↦ returns b ]

  unfoldable pub handle_current : Bus S → Outcome (Bus S × Option ℕ)
  unfolding handle_request
  handle_current b = elim b.current [ none ↦ returns (b, none) | some i ↦ handle_request b i ]

  unfoldable pub clear_if_idle : Bus S × Option ℕ → Bus S × Option ℕ
  unfolding clear_locks
  clear_if_idle (b, done) = (elim b.current [ none ↦ clear_locks b | some i ↦ b ], done)

  -- `main_action`, run at each falling edge of the clock: the bus after it, and the request whose
  -- master is woken.
  unfoldable pub main_action : Bus S → Outcome (Bus S × Option ℕ)
  unfolding pick handle_current clear_if_idle
  main_action b =
      pick b >>= λ picked. handle_current picked >>= λ handled. returns (clear_if_idle handled)

  -- `direct_read` and `direct_write`: no request, no clock.
  unfoldable pub direct_read : Bus S → ℕ → ℕ → Outcome (Bool × Bus S)
  unfolding get_slave
  direct_read b at address =
      if address % 4 == 0
      then elim (get_slave b.slave_port address) [
        | none ↦ returns (false, b)
        | some (k, s) ↦ slave_if.direct_read s (b.cells at) address >>= λ (done, d).
            returns (done, record b { cells = update b.cells at d })
      ]
      else returns (false, b)

  unfoldable pub direct_write : Bus S → ℕ → ℕ → Outcome (Bool × Bus S)
  unfolding get_slave
  direct_write b at address =
      if address % 4 == 0
      then elim (get_slave b.slave_port address) [
        | none ↦ returns (false, b)
        | some (k, s) ↦ slave_if.direct_write s (b.cells at) address >>= λ (done, s').
            returns (done, record b { slave_port = set b.slave_port k s' })
      ]
      else returns (false, b)
