-- ===== src/Examples/Arbitration.antt =====
-- The arbiter and the bus at work on concrete requests: src/simple_bus_arbiter.cpp and
-- src/simple_bus.cpp.
use simple_bus_mdu.Prelude.{
  ℕ, ◌≡◌, refl, ◌⊎◌, true, false, none, some, List, [], ◌∷◌, returns, fault, assert_failed, arith,
  ◌-◌, ◌*◌, ◌&&◌, leb, ltb, if◌then◌else◌, word_at,
}
use simple_bus_mdu.Types.{
  Request, Status, ok, request, wait, LockStatus, lock_no, lock_set, lock_granted, new_request,
}
use simple_bus_mdu.Arbiter.{Ref, arbitrate}
use simple_bus_mdu.Arbiter.Choice.{Distinct, Chosen, arbitrate-Chosen}
use simple_bus_mdu.FastMem.{FastMem, fast_mem, read, write}
use simple_bus_mdu.FastMem.Laws.{IsWellFormed, read-write}
use simple_bus_mdu.FastMem.Bursts.{words_from, burst_read-words}
use simple_bus_mdu.Bus.Forms.{Bus, get_request, is_finished, non_blocking}
use simple_bus_mdu.Bus.Slaves.{get_slave, end_of_elaboration}
use simple_bus_mdu.Bus.Service.{main_action}
use simple_bus_mdu.Bus.Blocking.{blocking}
use simple_bus_mdu.Bus.Elaboration.{get_slave-routes}
use simple_bus_mdu.Bus.Requests.{Found, get_request-Found}
use simple_bus_mdu.Bus.Invariant.{IsValid, ReturnsValid, SlaveFault}
use simple_bus_mdu.Bus.Action.{main_action-IsValid}
use simple_bus_mdu.Bus.Mounted.{Mounted, checked-Mounted}
use simple_bus_mdu.Bus.NonBlocking.{non_blocking-IsValid}
use simple_bus_mdu.Bus.Quiet.{Quiet}

abbrev asks : ℕ → Status → LockStatus → Request
asks p st lock = record new_request {
  priority = p;
  status = st;
  lock = lock;
  address = 8 * p;
  end_address = 8 * p;
}

abbrev bag : List Ref
bag =
    record { pos = 0; req = asks 4 request lock_no }
    ∷ record { pos = 2; req = asks 3 request lock_set }
    ∷ record { pos = 3; req = asks 7 wait lock_no }
    ∷ []

bag-Distinct : Distinct bag
bag-Distinct = ground arith

-- The least priority number wins, and its lock is granted.
arbitrate-bag : arbitrate bag ≡ returns (record { pos = 2; req = asks 3 request lock_granted })
unfolding arbitrate
arbitrate-bag = refl

arbitrate-Chosen_example : (x : Ref) × (arbitrate bag ≡ returns x) × Chosen bag x
arbitrate-Chosen_example = arbitrate-Chosen bag (λ e. cc) bag-Distinct

-- Two equal priorities make the assertion fail.
arbitrate_twice :
    arbitrate (
      record { pos = 0; req = asks 3 request lock_no }
      ∷ record { pos = 1; req = asks 3 request lock_no }
      ∷ [])
    ≡ fault assert_failed
unfolding arbitrate
arbitrate_twice = refl

abbrev pub low_mem : FastMem
low_mem = record { mem = 11 ∷ 12 ∷ 13 ∷ 14 ∷ []; m_start_address = 0; m_end_address = 15 }

abbrev high_mem : FastMem
high_mem = record { mem = 21 ∷ 22 ∷ []; m_start_address = 16; m_end_address = 23 }

low_mem-IsWellFormed : IsWellFormed low_mem
low_mem-IsWellFormed = omega arith

abbrev two_memories : Bus FastMem
two_memories = record {
  requests = asks 1 request lock_no ∷ asks 2 ok lock_no ∷ [];
  current = none;
  slave_port = high_mem ∷ low_mem ∷ [];
  cells = λ j. j;
}

two_memories_checked : end_of_elaboration two_memories.slave_port ≡ true
unfolding end_of_elaboration
two_memories_checked = refl

get_slave-routes_example : get_slave two_memories.slave_port 12 ≡ some (1, low_mem)
get_slave-routes_example =
    get_slave-routes two_memories.slave_port 1 12 two_memories_checked refl refl

get_request-Found_example : Found two_memories.requests 9
get_request-Found_example = get_request-Found two_memories.requests 9 (ground arith)

two_memories-IsValid : IsValid two_memories
two_memories-IsValid = record { unique = ground arith; waiting = tt }

main_action-IsValid_example :
    ReturnsValid (main_action two_memories) ⊎ SlaveFault fast_mem (main_action two_memories)
main_action-IsValid_example = main_action-IsValid two_memories two_memories-IsValid

non_blocking-IsValid_example :
    ((is_finished (get_request two_memories.requests 2).1.status ≡ true)
      × ((b' : Bus FastMem) × (non_blocking true two_memories 2 5 20 true ≡ returns b')
          × IsValid b'))
    ⊎ ((is_finished (get_request two_memories.requests 2).1.status ≡ false)
        × (non_blocking true two_memories 2 5 20 true ≡ fault assert_failed))
non_blocking-IsValid_example =
    non_blocking-IsValid true two_memories 2 5 20 true two_memories-IsValid

abbrev resting_bus : Bus FastMem
resting_bus = record two_memories { requests = [] }

resting_bus-Quiet : Quiet resting_bus
resting_bus-Quiet = record { current = refl; none_pending = tt; no_locks = tt }

low_mem-Mounted : Mounted resting_bus.slave_port 1 low_mem
low_mem-Mounted = checked-Mounted resting_bus.slave_port 1 two_memories_checked refl

burst_read-words_example :
    (b' : Bus FastMem) × (blocking false 9 resting_bus 4 100 4 3 false ≡ returns (some (ok, b')))
    × Quiet b'
    × Mounted b'.slave_port 1 low_mem
    × ((j : ℕ)
        → b'.cells j ≡ (if leb 100 j && ltb j 103 then words_from low_mem 4 (j - 100) else j))
burst_read-words_example =
    burst_read-words resting_bus 1 low_mem 4 100 4 2 9 resting_bus-Quiet low_mem-Mounted
      low_mem-IsWellFormed (omega arith) (omega arith) refl (omega arith) (omega arith)

read-write_example :
    (m' : FastMem) × (v : ℕ) × (write low_mem 99 8 ≡ returns (ok, m'))
    × IsWellFormed m'
    × (v ≡ word_at low_mem.mem 2)
    × (read low_mem 0 10 ≡ returns (ok, v, low_mem))
    × (read m' 0 10 ≡ returns (ok, 99, m'))
read-write_example = read-write low_mem 99 8 0 10 low_mem-IsWellFormed (omega arith) (omega arith)
