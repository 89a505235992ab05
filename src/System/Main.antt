-- ===== src/System/Main.antt =====
-- sc_main of src/main.cpp: the unit alone on the bus, with the thread of include/mdu_master.h.
use simple_bus_mdu.Prelude.{ℕ, none, Option, List, [], ◌∷◌, Outcome}
use simple_bus_mdu.Prelude.Int.{pos}
use simple_bus_mdu.Bus.Forms.{Bus}
use simple_bus_mdu.Mdu.{Mdu, new, mdu}
use simple_bus_mdu.Masters.Testcase.{run_testcases, testcases}

-- The bus as `sc_main` builds it. The registers of the unit are whatever its storage holds.
unfoldable pub main_bus : ℕ → ℕ → (ℕ → ℕ) → Bus Mdu
main_bus op_a op_b cells = record {
  requests = [];
  current = none;
  slave_port = new op_a op_b (pos 4) ∷ [];
  cells = cells;
}

-- `sc_start` runs the master to its `sc_stop`: what it prints, and the bus. The fuel is for each of the
-- calls.
unfoldable pub sc_main : ℕ → ℕ → ℕ → (ℕ → ℕ) → Outcome (Option (List ℕ × Bus Mdu))
unfolding main_bus
sc_main fuel op_a op_b cells = run_testcases fuel (main_bus op_a op_b cells) testcases
