-- ===== src/Examples/Interleaving.antt =====
-- Two masters on one bus: the first in a burst, the second between two calls.
use simple_bus_mdu.Prelude.{◌≡◌, arith, some, none, ◌⊎◌, refl, true, false, [], ◌∷◌, returns}
use simple_bus_mdu.FastMem.{FastMem, fast_mem}
use simple_bus_mdu.Bus.Forms.{Bus, update, burst, fill, get_request, non_blocking}
use simple_bus_mdu.Bus.Service.{main_action, pick, call_slave}
use simple_bus_mdu.Bus.Invariant.{IsValid, ReturnsValid, SlaveFault}
use simple_bus_mdu.Bus.Slaves.{get_slave}
use simple_bus_mdu.FastMem
use simple_bus_mdu.Types.{Request, new_request, ok, request}
use simple_bus_mdu.Bus.Locks.{locked, next_form, two_forms, locked_burst-interrupted}
use simple_bus_mdu.Masters.Threads.{
  Threads, is_running, switch, calls, asks, init, Reach, start, later, blocked, polling,
}
use simple_bus_mdu.Masters.Interleavings.{no_assertion_fails}
use simple_bus_mdu.Examples.Arbitration.{low_mem}

abbrev at_first : Threads FastMem
at_first = init (low_mem ∷ []) (λ j. j)

-- The master 4 reads a burst of three words, the master 6 asks for a word.
abbrev in_burst : Threads FastMem
in_burst = record {
  bus = (burst false at_first.bus 4 0 0 3 false).1;
  mode = switch at_first.mode 4 blocked;
}

abbrev both_wait : Threads FastMem
both_wait = record {
  bus = (fill in_burst.bus false 6 9 8 8 true).1;
  mode = switch in_burst.mode 6 polling;
}

asked : non_blocking false in_burst.bus 6 9 8 true ≡ returns both_wait.bus
unfolding non_blocking burst fill get_request
asked = refl

both_wait-Reach : Reach (low_mem ∷ []) (λ j. j) both_wait
both_wait-Reach =
    later (later start (calls 4 false 0 0 3 false refl)) (asks 6 false 9 8 true refl asked)

no_assertion_fails_example :
    (ReturnsValid (main_action both_wait.bus) ⊎ SlaveFault fast_mem (main_action both_wait.bus))
    × ((is_running (both_wait.mode 1) ≡ false)
        ⊎ ((b : Bus FastMem) × (non_blocking true both_wait.bus 1 3 4 false ≡ returns b)
            × IsValid b))
no_assertion_fails_example =
    no_assertion_fails (low_mem ∷ []) (λ j. j) both_wait 1 true 3 4 false both_wait-Reach

-- A locked burst of the master 4 over the words at 0, 4, 8 and 12, past its first word; the master 2 asks
-- for the word at 12.
abbrev burst_form : Request
burst_form = record new_request { priority = 4; address = 4; end_address = 12; data_at = 1 }

abbrev word_form : Request
word_form = record new_request {
  priority = 2;
  address = 12;
  end_address = 12;
  data_at = 9;
  status = request;
}

second_word :
    call_slave
      (two_forms (locked burst_form) word_form (low_mem ∷ []) (λ j. j))
      (locked burst_form)
      0
      low_mem
    ≡ returns (ok, low_mem ∷ [], update (λ j. j) 1 12)
unfolding call_slave FastMem.read
second_word = refl

locked_burst-interrupted_example :
    (b : Bus FastMem) × (main_action
        (two_forms (locked burst_form) word_form (low_mem ∷ []) (λ j. j))
      ≡ returns (b, none))
    × (b ≡ two_forms (next_form burst_form) word_form (low_mem ∷ []) (update (λ j. j) 1 12))
    × (pick b ≡ returns (record b { current = some 1 }))
locked_burst-interrupted_example =
    locked_burst-interrupted burst_form word_form 0 low_mem (low_mem ∷ []) (low_mem ∷ []) (λ j. j)
      (update (λ j. j) 1 12) refl (unfold get_slave in refl) second_word (omega arith) refl refl
      (omega arith)
