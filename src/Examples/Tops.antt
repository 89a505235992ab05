-- ===== src/Examples/Tops.antt =====
-- The two programs that are built of the parts, sc_main of src/main.cpp and the test bench of
-- simple_bus_headers/simple_bus_test.h, and the loops of its masters.
use simple_bus_mdu.Prelude.{
  ℕ, ◌≡◌, refl, ◌<◌, ◌^◌, ◌*◌, true, false, none, some, List, [], ◌∷◌, returns, arith, word_at,
  ◌>>=◌, zero, suc, replicate,
}
use simple_bus_mdu.Bus.Forms.{Bus}
use simple_bus_mdu.Bus.Slaves.{end_of_elaboration}
use simple_bus_mdu.Bus.Mounted.{Mounted, checked-Mounted}
use simple_bus_mdu.Bus.Quiet.{Quiet}
use simple_bus_mdu.FastMem
use simple_bus_mdu.FastMem.{FastMem, fast_mem, index_of}
use simple_bus_mdu.SlowMem
use simple_bus_mdu.Masters.Loops.{
  BlockingMaster, blocking_rounds, NonBlockingMaster, non_blocking_action,
}
use simple_bus_mdu.Masters.ManySweeps.{non_blocking_action-raised}
use simple_bus_mdu.Bus.Invariant.{IsValid}
use simple_bus_mdu.Masters.Repeated.{raised_times, blocking_rounds-raised}
use simple_bus_mdu.Masters.Results.{ReadyUnit, run_testcases-returns}
use simple_bus_mdu.Mdu.{Mdu, mdu}
use simple_bus_mdu.Masters.Testcase.{testcases}
use simple_bus_mdu.System.Main.{main_bus, sc_main}
use simple_bus_mdu.System.TestBench.{simple_bus_test, test_slave}
use simple_bus_mdu.Examples.Units.{results, testcases-Expects}

main_bus-checked :
    (op_a op_b : ℕ) (cells : ℕ → ℕ)
    → end_of_elaboration (main_bus op_a op_b cells).slave_port ≡ true
unfolding end_of_elaboration main_bus
main_bus-checked op_a op_b cells = refl

main_bus-ReadyUnit :
    (op_a op_b : ℕ) (cells : ℕ → ℕ) → ReadyUnit (main_bus op_a op_b cells) 0 op_a op_b 4
unfolding main_bus
main_bus-ReadyUnit op_a op_b cells = record {
  quiet = record { current = refl; none_pending = tt; no_locks = tt };
  mounted =
      checked-Mounted (main_bus op_a op_b cells).slave_port 0 (main_bus-checked op_a op_b cells)
        refl;
}

-- Whatever the storage of the unit and of the master held before.
sc_main_prints :
    (fuel op_a op_b : ℕ) (cells : ℕ → ℕ)
    → 4 < fuel
    → (b' : Bus Mdu) × (sc_main fuel op_a op_b cells ≡ returns (some (results, b')))
unfolding sc_main
sc_main_prints fuel op_a op_b cells enough =
    run_testcases-returns fuel (main_bus op_a op_b cells) 0 op_a op_b 4 testcases results
      (main_bus-ReadyUnit op_a op_b cells) (λ e. omega arith) enough testcases-Expects

-- The test bench is built, and its memories do not overlap.
test_bench-checked :
    (simple_bus_test (λ j. 0) >>= λ bench. returns (end_of_elaboration bench.bus.slave_port))
    ≡ returns true
unfolding simple_bus_test FastMem.new SlowMem.new end_of_elaboration
test_bench-checked = refl

-- A fast memory of seventeen words, each the greatest.
abbrev seventeen : List ℕ
seventeen = replicate 17 4294967295

word_at-replicate : (n w x : ℕ) → w < 2 ^ 32 → word_at (replicate n w) x < 2 ^ 32
word_at-replicate zero w x h = omega arith
word_at-replicate (suc n) w zero h = h
word_at-replicate (suc n) w (suc x) h = word_at-replicate n w x h

abbrev burst_bus : Bus FastMem
burst_bus = record {
  requests = [];
  current = none;
  slave_port = record { mem = seventeen; m_start_address = 64; m_end_address = 131 } ∷ [];
  cells = λ j. 0;
}

burst_bus-checked : end_of_elaboration burst_bus.slave_port ≡ true
unfolding end_of_elaboration
burst_bus-checked = refl

abbrev burst_master : BlockingMaster
burst_master = record { m_unique_priority = 4; m_address = 68; m_lock = false; m_timeout = 300 }

blocking_rounds-raised_example :
    (b' : Bus FastMem) × (m' : FastMem) × (blocking_rounds 5 16 burst_master burst_bus
      ≡ returns (some b'))
    × Quiet b'
    × Mounted b'.slave_port 0 m'
    × ((x : ℕ) → word_at m'.mem x ≡ raised_times 16 5 1 x (word_at seventeen x))
blocking_rounds-raised_example =
    blocking_rounds-raised 5 16 burst_master burst_bus 0
      (record { mem = seventeen; m_start_address = 64; m_end_address = 131 }) refl
      (record { current = refl; none_pending = tt; no_locks = tt })
      (checked-Mounted burst_bus.slave_port 0 burst_bus-checked refl)
      (record { ordered = omega arith; small = omega arith; sized = refl })
      (λ x. word_at-replicate 17 4294967295 x (omega arith)) (omega arith, omega arith)
      (omega arith, omega arith) refl (omega arith) (omega arith)

-- A fast memory of 34 words, and the non-blocking master of the test bench in front of it.
abbrev many_words : FastMem
many_words = record { mem = replicate 34 4294967295; m_start_address = 52; m_end_address = 187 }

abbrev sweep_bus : Bus FastMem
sweep_bus = record { requests = []; current = none; slave_port = many_words ∷ []; cells = λ j. 0 }

sweep_bus-checked : end_of_elaboration sweep_bus.slave_port ≡ true
unfolding end_of_elaboration
sweep_bus-checked = refl

abbrev sweep_master : NonBlockingMaster
sweep_master = record {
  m_unique_priority = 3;
  m_start_address = 56;
  m_lock = false;
  m_timeout = 20;
}

non_blocking_action-raised_example :
    (b' : Bus FastMem) × (m' : FastMem) × (non_blocking_action (7 * 33) 2 sweep_master sweep_bus
      ≡ returns (some b'))
    × IsValid b'
    × Quiet b'
    × Mounted b'.slave_port 0 m'
    × ((x : ℕ) → word_at m'.mem x ≡ raised_times 33 7 1 x (word_at many_words.mem x))
non_blocking_action-raised_example =
    non_blocking_action-raised 7 2 sweep_master sweep_bus 0 many_words refl
      (record { unique = tt; waiting = tt })
      (record { current = refl; none_pending = tt; no_locks = tt })
      (checked-Mounted sweep_bus.slave_port 0 sweep_bus-checked refl)
      (record { ordered = omega arith; small = omega arith; sized = refl })
      (λ x. word_at-replicate 34 4294967295 x (omega arith)) (omega arith, omega arith)
      (omega arith, omega arith) refl (omega arith) (omega arith)
