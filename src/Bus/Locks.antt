-- ===== src/Bus/Locks.antt =====
-- How long a locked burst keeps the bus: src/simple_bus.cpp (main_action, clear_locks) with
-- src/simple_bus_arbiter.cpp (arbitrate).
use simple_bus_mdu.Prelude.{
  ℕ, suc, ◌+◌, ◌%◌, ◌≤◌, ◌<◌, ◌≡◌, refl, ap, ◌∙◌, true, false, none, some, List, [], ◌∷◌, returns,
  ltb, ◌==◌, arith,
}
use simple_bus_mdu.Types.{Request, ok, wait, lock_no, lock_set, LockStatus, SlaveIf, u32}
use simple_bus_mdu.Arbiter.{Ref, arbitrate, find_first, least_from}
use simple_bus_mdu.Bus.Forms.{
  Bus, is_pending, pending, get_next_request, clear_locks, unlock, lock_down,
}
use simple_bus_mdu.Bus.Slaves.{get_slave}
use simple_bus_mdu.Bus.Service.{
  pick, main_action, handle_current, clear_if_idle, call_slave, complete, transfer,
}
use simple_bus_mdu.Bus.Invariant.{transfer-returns}
use simple_bus_mdu.Bus.Action.{handle_request-served, handle-some}

-- A locked burst under way, and its form after one more word.
abbrev pub locked : Request → Request
locked r = record r { status = wait; lock = lock_set }

abbrev pub next_form : Request → Request
next_form r = record r {
  address = u32 (r.address + 4);
  data_at = suc r.data_at;
  status = wait;
  lock = lock_no;
}

-- A bus between two transfers, with the forms of two masters.
abbrev pub two_forms : {S : Type 0} → Request → Request → List S → (ℕ → ℕ) → Bus S
two_forms r q slaves cells = record {
  requests = r ∷ q ∷ [];
  current = none;
  slave_port = slaves;
  cells = cells;
}

pending_both :
    (r q : Request)
    → is_pending r ≡ true
    → is_pending q ≡ true
    → pending 0 (r ∷ q ∷ []) ≡ record { pos = 0; req = r } ∷ record { pos = 1; req = q } ∷ []
unfolding pending
pending_both r q e f = ground arith

arbitrate-least :
    (x y : Ref)
    → x.req.lock ≡ lock_no
    → y.req.lock ≡ lock_no
    → y.req.priority < x.req.priority
    → arbitrate (x ∷ y ∷ []) ≡ returns y
unfolding arbitrate find_first least_from
arbitrate-least x y l l' lt =
    let less : ltb y.req.priority x.req.priority ≡ true = ground arith in
    let other : (y.req.priority == x.req.priority) ≡ false = ground arith in ground arith

lock_down_none : (l : LockStatus) → l ≡ lock_no → lock_down l ≡ l
lock_down_none l e = rw e refl

module _ {S : Type 0} ⦃slave_if : SlaveIf S⦄ where
  picks_locked :
      (r q : Request) (slaves : List S) (cells : ℕ → ℕ)
      → pick (two_forms (locked r) q slaves cells)
        ≡ returns (record (two_forms (locked r) q slaves cells) { current = some 0 })
  unfolding pick get_next_request pending arbitrate find_first
  picks_locked r q slaves cells = refl

  picks_least :
      (r q : Request) (slaves : List S) (cells : ℕ → ℕ)
      → is_pending r ≡ true
      → r.lock ≡ lock_no
      → is_pending q ≡ true
      → q.lock ≡ lock_no
      → q.priority < r.priority
      → pick (two_forms r q slaves cells)
        ≡ returns (record (two_forms r q slaves cells) { current = some 1 })
  unfolding pick get_next_request
  picks_least r q slaves cells w l p l' lt =
      rw
        (
          pick,
          get_next_request,
          pending_both r q w p,
          arbitrate-least (record { pos = 0; req = r }) (record { pos = 1; req = q }) l l' lt,
        )
        refl

  -- More words are to come.
  complete-more :
      (r q : Request) (slaves : List S) (cells : ℕ → ℕ)
      → u32 (r.address + 4) ≤ r.end_address
      → complete (record (two_forms (locked r) q slaves cells) { current = some 0 }) 0 (locked r) ok
        ≡ (two_forms (record (next_form r) { lock = lock_set }) q slaves cells, none)
  unfolding complete
  complete-more r q slaves cells more =
      let on : ltb r.end_address (u32 (r.address + 4)) ≡ false = ground arith in rw on refl

  -- The word of the locked burst `r` is transferred, with more to come.
  serves_locked :
      (r q : Request) (k : ℕ) (s : S) (slaves slaves' : List S) (cells cells' : ℕ → ℕ)
      → (r.address % 4 == 0) ≡ true
      → get_slave slaves r.address ≡ some (k, s)
      → call_slave (two_forms (locked r) q slaves cells) (locked r) k s
        ≡ returns (ok, slaves', cells')
      → u32 (r.address + 4) ≤ r.end_address
      → main_action (two_forms (locked r) q slaves cells)
        ≡ returns (two_forms (next_form r) (unlock q) slaves' cells', none)
  unfolding main_action call_slave clear_locks clear_if_idle
  serves_locked r q k s slaves slaves' cells cells' aligned found called more =
      let b : Bus S = two_forms (locked r) q slaves cells in
      let z : Bus S = record b { current = some 0 } in
      let handled : handle_current z ≡ transfer z 0 (locked r) k s =
        handle-some z 0 refl ∙ handle_request-served z 0 {r = locked r} refl aligned found in
      let served : transfer z 0 (locked r) k s
          ≡ returns (two_forms (record (next_form r) { lock = lock_set }) q slaves' cells', none) =
        transfer-returns z 0 (locked r) k s ok slaves' cells' called
        ∙ ap returns (complete-more r q slaves' cells' more) in
      rw (picks_locked r q slaves cells, handled ∙ served) refl

  -- Two masters: the first in a locked burst, past its first word (WAIT, and the lock SET), with at least
  -- two more words to come; the second with a pending request of a smaller priority number and no lock.
  -- At the next falling edge the bus serves the burst, where its slave answers OK. But the burst has lost
  -- its lock by then: at the edge after it the bus takes up the other request, in the middle of the burst.
  pub locked_burst-interrupted :
      (r q : Request) (k : ℕ) (s : S) (slaves slaves' : List S) (cells cells' : ℕ → ℕ)
      → (r.address % 4 == 0) ≡ true
      → get_slave slaves r.address ≡ some (k, s)
      → call_slave (two_forms (locked r) q slaves cells) (locked r) k s
        ≡ returns (ok, slaves', cells')
      → u32 (r.address + 4) ≤ r.end_address
      → is_pending q ≡ true
      → q.lock ≡ lock_no
      → q.priority < r.priority
      → (b : Bus S) × (main_action (two_forms (locked r) q slaves cells) ≡ returns (b, none))
        × (b ≡ two_forms (next_form r) q slaves' cells')
        × (pick b ≡ returns (record b { current = some 1 }))
  locked_burst-interrupted r q k s slaves slaves' cells cells' aligned found called more p l lt =
      let b : Bus S = two_forms (next_form r) (unlock q) slaves' cells' in
      let same : unlock q ≡ q = ap (λ x. record q { lock = x }) (lock_down_none q.lock l) in
      (
        b,
        serves_locked r q k s slaves slaves' cells cells' aligned found called more,
        ap (λ x. two_forms (next_form r) x slaves' cells') same,
        picks_least (next_form r) (unlock q) slaves' cells' refl refl p (rw l refl) lt,
      )
