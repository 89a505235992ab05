-- ===== src/Masters/Threads.antt =====
-- Several masters on one bus, interleaved in any order: the threads of src/main.cpp and of
-- simple_bus_headers/simple_bus_test.h, each with its own priority. Between two edges of the clock any
-- thread that is running may go on, by one call of the bus.
use simple_bus_mdu.Prelude.{
  ℕ, ◌≡◌, Bool, true, false, Option, none, some, List, [], returns, get_elem?, ◌==◌, if◌then◌else◌,
}
use simple_bus_mdu.Types.{Request, SlaveIf}
use simple_bus_mdu.Bus.Forms.{Bus, burst, non_blocking, get_status, is_finished}
use simple_bus_mdu.Bus.Service.{main_action, direct_read, direct_write}
use simple_bus_mdu.Bus.Blocking.{posedge}

-- Where a thread is: free to call the bus; in `wait(request->transfer_done)`; past it, in
-- `wait(clock->posedge_event())`; in the loop that asks for the status of a non-blocking call.
pub data Mode : Type 0 where
  running blocked notified polling : Mode

-- The thread of the priority `t` is in the mode `mode t`.
pub record Threads (S : Type 0) : Type 0 where
  pub bus : Bus S
  pub mode : ℕ → Mode

abbrev pub is_running : Mode → Bool
is_running running = true
is_running _ = false

abbrev pub switch : (ℕ → Mode) → ℕ → Mode → ℕ → Mode
switch mode t new j = if j == t then new else mode j

abbrev pub notify : Mode → Mode
notify blocked = notified
notify m = m

abbrev pub resume : Mode → Mode
resume notified = running
resume m = m

-- `transfer_done.notify()` wakes the thread that waits for it.
unfoldable pub wake : List Request → Option ℕ → (ℕ → Mode) → ℕ → Mode
wake rs none mode = mode
wake rs (some i) mode = elim (get_elem? rs i) [
  | none ↦ mode
  | some r ↦ switch mode r.priority (notify (mode r.priority))
]

module _ {S : Type 0} ⦃slave_if : SlaveIf S⦄ where
  pub data Step (s : Threads S) : Threads S → Type 0 where
    -- `burst_read` or `burst_write`, up to its `wait`
    calls :
        (t : ℕ) (do_write : Bool) (at address length : ℕ) (lock : Bool)
        → s.mode t ≡ running
        → Step s (record {
          bus = (burst do_write s.bus t at address length lock).1;
          mode = switch s.mode t blocked;
        })
    -- the non-blocking `read` or `write`
    asks :
        (t : ℕ) (do_write : Bool) (at address : ℕ) (lock : Bool) {b : Bus S}
        → s.mode t ≡ running
        → non_blocking do_write s.bus t at address lock ≡ returns b
        → Step s (record { bus = b; mode = switch s.mode t polling })
    -- `get_status`, which ends the loop at OK and at ERROR
    polls :
        (t : ℕ)
        → s.mode t ≡ polling
        → Step s (record {
          bus = (get_status s.bus t).1;
          mode = switch s.mode t (if is_finished (get_status s.bus t).0 then running else polling);
        })
    -- the direct interface, of any thread
    looks :
        (at address : ℕ) {done : Bool} {b : Bus S}
        → direct_read s.bus at address ≡ returns (done, b)
        → Step s (record s { bus = b })
    puts :
        (at address : ℕ) {done : Bool} {b : Bus S}
        → direct_write s.bus at address ≡ returns (done, b)
        → Step s (record s { bus = b })
    -- a thread works on its own memory
    computes : (cells : ℕ → ℕ) → Step s (record s { bus = record s.bus { cells = cells } })
    -- the edges of the clock
    falls :
        {b : Bus S} {woken : Option ℕ}
        → main_action s.bus ≡ returns (b, woken)
        → Step s (record { bus = b; mode = wake b.requests woken s.mode })
    rises : Step s (record { bus = posedge s.bus; mode = λ t. resume (s.mode t) })

  -- Before the first edge.
  abbrev pub init : List S → (ℕ → ℕ) → Threads S
  init slaves cells = record {
    bus = record { requests = []; current = none; slave_port = slaves; cells = cells };
    mode = λ t. running;
  }

  pub data Reach (slaves : List S) (cells : ℕ → ℕ) : Threads S → Type 0 where
    start : Reach slaves cells (init slaves cells)
    later : {s s' : Threads S} → Reach slaves cells s → Step s s' → Reach slaves cells s'
