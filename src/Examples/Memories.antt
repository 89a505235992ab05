-- ===== src/Examples/Memories.antt =====
-- The memories behind the bus, and the memory of the MIPS on its own, on small systems.
use simple_bus_mdu.Prelude.{
  ℕ, ◌≡◌, refl, inr, true, false, none, List, [], ◌∷◌, returns, fault, out_of_bounds, exit_program,
  arith,
}
use simple_bus_mdu.Prelude.Int.{pos}
use simple_bus_mdu.Bus.Forms.{Bus, update}
use simple_bus_mdu.Bus.Slaves.{end_of_elaboration}
use simple_bus_mdu.Bus.Mounted.{checked-Mounted}
use simple_bus_mdu.Bus.Blocking.{blocking}
use simple_bus_mdu.Bus.Quiet.{Quiet}
use simple_bus_mdu.Bus.Transactions.{Completed, StillWaits}
use simple_bus_mdu.FastMem
use simple_bus_mdu.FastMem.{FastMem, fast_mem}
use simple_bus_mdu.Masters.Rounds.{direct_round}
use simple_bus_mdu.Masters.DirectRound.{direct_round-held}
use simple_bus_mdu.FastMem.Laws
use simple_bus_mdu.SlowMem.{SlowMem, slow_mem}
use simple_bus_mdu.SlowMem.Timing.{idle as idle_slow}
use simple_bus_mdu.SlowMem.Reads.{burst_read-word, burst_read_hasty_lapses}
use simple_bus_mdu.MemMips.Const
use simple_bus_mdu.MemMips.{MemMips, mem_mips, new, lw, sb, sh, sw}
use simple_bus_mdu.MemMips.Bytes.{IsWellFormed, Loads, Loads-byte_at}
use simple_bus_mdu.MemMips.Stores.{Stored, stores-Stored}
use simple_bus_mdu.MemMips.Timing.{idle}
use simple_bus_mdu.MemMips.Limits.{lw_past_the_end, burst_read_register_lapses}
use simple_bus_mdu.System.{slave}

-- Four words of memory, built with two wait states.
abbrev pub words : List ℕ
words = 287454020 ∷ 5 ∷ 0 ∷ 4294967295 ∷ []

abbrev pub small : MemMips
small = new words (pos 2)

pub small-IsWellFormed : IsWellFormed small
small-IsWellFormed = record {
  sized = refl;
  words = (omega arith, (omega arith, (omega arith, (omega arith, tt))));
}

Loads-byte_at_example : Loads small 12 2 14
Loads-byte_at_example = Loads-byte_at small 12 2 small-IsWellFormed (omega arith, omega arith)

stores-Stored_example :
    Stored small (sb small 5 1 200) 6 1 200
    × Stored small (sh small 5 1 200) 6 2 200
    × Stored small (sw small 5 1 200) 4 4 200
stores-Stored_example =
    stores-Stored small 5 1 200 small-IsWellFormed (omega arith, omega arith) (omega arith)

lw_past_the_end_example :
    (lw small 16 0 ≡ fault out_of_bounds) × (lw small 20 0 ≡ fault exit_program)
lw_past_the_end_example =
    lw_past_the_end small 16 20 small-IsWellFormed (omega arith) (omega arith) refl (omega arith)

-- The memory alone on a bus.
abbrev memory_bus : Bus MemMips
memory_bus = record {
  requests = [];
  current = none;
  slave_port = idle small 2 ∷ [];
  cells = λ j. 0;
}

memory_bus-checked : end_of_elaboration memory_bus.slave_port ≡ true
unfolding end_of_elaboration
memory_bus-checked = refl

burst_read_register_lapses_example :
    StillWaits (blocking false 1000 memory_bus 2 7 Const.addr_reg 1 false)
burst_read_register_lapses_example =
    burst_read_register_lapses 1000 memory_bus 0 2 2 7 Const.addr_reg small
      (record { current = refl; none_pending = tt; no_locks = tt })
      (checked-Mounted memory_bus.slave_port 0 memory_bus-checked refl) (inr refl)

-- A slow memory of four words, with one wait state as in simple_bus_headers/simple_bus_test.h.
abbrev slow_bus : ℕ → Bus SlowMem
slow_bus n = record {
  requests = [];
  current = none;
  slave_port = idle_slow words 128 143 n ∷ [];
  cells = λ j. 0;
}

slow_bus-checked : (n : ℕ) → end_of_elaboration (slow_bus n).slave_port ≡ true
unfolding end_of_elaboration
slow_bus-checked n = refl

slow_bus-Quiet : (n : ℕ) → Quiet (slow_bus n)
slow_bus-Quiet n = record { current = refl; none_pending = tt; no_locks = tt }

burst_read-word_example :
    Completed
      (blocking false 2 (slow_bus 1) 4 7 132 1 false)
      0
      (idle_slow words 128 143 1)
      (update (λ j. 0) 7 5)
    × StillWaits (blocking false 1 (slow_bus 1) 4 7 132 1 false)
burst_read-word_example =
    burst_read-word (slow_bus 1) 0 128 143 1 4 7 132 words (slow_bus-Quiet 1)
      (checked-Mounted (slow_bus 1).slave_port 0 (slow_bus-checked 1) refl) refl refl 2 1 refl
      (omega arith) (λ e. omega arith) (omega arith) (omega arith) (omega arith)

burst_read_hasty_lapses_example : StillWaits (blocking false 1000 (slow_bus 0) 4 7 132 1 false)
burst_read_hasty_lapses_example =
    burst_read_hasty_lapses 1000 (slow_bus 0) 0 128 143 4 7 132 words (slow_bus-Quiet 0)
      (checked-Mounted (slow_bus 0).slave_port 0 (slow_bus-checked 0) refl) refl refl

built :
    FastMem.new 16 31
    ≡ returns (record { mem = 0 ∷ 0 ∷ 0 ∷ 0 ∷ []; m_start_address = 16; m_end_address = 31 })
unfolding FastMem.new
built = refl

new-IsWellFormed_example :
    Laws.IsWellFormed
      (record { mem = 0 ∷ 0 ∷ 0 ∷ 0 ∷ []; m_start_address = 16; m_end_address = 31 })
new-IsWellFormed_example = Laws.new-IsWellFormed 16 31 built (omega arith) (λ e. omega arith)

-- The fast memory of simple_bus_headers/simple_bus_test.h, shortened to four words.
abbrev fast_bus : Bus FastMem
fast_bus = record {
  requests = [];
  current = none;
  slave_port = record { mem = words; m_start_address = 0; m_end_address = 15 } ∷ [];
  cells = λ j. 0;
}

fast_bus-checked : end_of_elaboration fast_bus.slave_port ≡ true
unfolding end_of_elaboration
fast_bus-checked = refl

direct_round-held_example :
    direct_round fast_bus 0
    ≡ returns (record fast_bus {
      cells = update (update (update (update (λ j. 0) 0 287454020) 1 5) 2 0) 3 4294967295;
    })
direct_round-held_example =
    direct_round-held fast_bus 0 0 (record { mem = words; m_start_address = 0; m_end_address = 15 })
      (checked-Mounted fast_bus.slave_port 0 fast_bus-checked refl)
      (record { ordered = omega arith; small = omega arith; sized = refl })
      (omega arith, omega arith) (omega arith, omega arith) refl
