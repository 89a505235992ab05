-- ===== src/Mdu/NoWaitStates.antt =====
-- The unit of include/mdu.h built with no wait states, behind the bus.
use simple_bus_mdu.Prelude.{ℕ, ◌%◌, ◌≡◌, refl, true, false, ◌==◌}
use simple_bus_mdu.Bus.Forms.{Bus}
use simple_bus_mdu.Bus.Slaves.{answers}
use simple_bus_mdu.Bus.Mounted.{Mounted}
use simple_bus_mdu.Bus.Blocking.{blocking}
use simple_bus_mdu.Bus.Quiet.{Quiet}
use simple_bus_mdu.Bus.Transactions.{StillWaits}
use simple_bus_mdu.Bus.Hangs.{burst_read_lapses}
use simple_bus_mdu.Mdu.{Mdu, read, read_at, mdu}
use simple_bus_mdu.Mdu.Timing.{idle, working, mdu-KeepsRange}

-- With `wait_states` 0, on a quiet bus and by its only thread, a blocking read of one word at a word
-- aligned address of the idle unit still waits however many cycles pass.
pub burst_read_unit_lapses :
    (fuel : ℕ) (b : Bus Mdu) (k a c p at address : ℕ)
    → Quiet b
    → Mounted b.slave_port k (idle a c 0)
    → (address % 4 == 0) ≡ true
    → answers (idle a c 0) address ≡ true
    → StillWaits (blocking false fuel b p at address 1 false)
unfolding read read_at
burst_read_unit_lapses fuel b k a c p at address quiet mounted aligned hit =
    burst_read_lapses mdu-KeepsRange k (idle a c 0) (working a c 0 0) address (λ d. refl)
      (refl, refl) refl aligned hit fuel b p at quiet mounted
