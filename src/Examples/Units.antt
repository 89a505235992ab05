-- ===== src/Examples/Units.antt =====
-- The multiplication and division unit behind the bus, as src/main.cpp builds it, and on its own.
use simple_bus_mdu.Prelude.{
  ℕ, ◌^◌, ◌≡◌, refl, ◌<◌, inl, inr, true, false, none, List, [], ◌∷◌, returns, fault, bad_division,
  arith,
}
use simple_bus_mdu.Prelude.Int.{pos, ◌+ℤ◌, ◌*ℤ◌, magnitude}
use simple_bus_mdu.Word.{signed32, quotient, remainder}
use simple_bus_mdu.Word.Division.{SameSign}
use simple_bus_mdu.Bus.Forms.{Bus, update}
use simple_bus_mdu.Bus.Slaves.{end_of_elaboration}
use simple_bus_mdu.Bus.Mounted.{Mounted, checked-Mounted}
use simple_bus_mdu.Bus.Blocking.{blocking}
use simple_bus_mdu.Bus.Quiet.{Quiet}
use simple_bus_mdu.Bus.Transactions.{Completed, StillWaits, burst_read-takes}
use simple_bus_mdu.Bus.Hangs.{blocking-rejected}
use simple_bus_mdu.Mdu.Const
use simple_bus_mdu.Mdu.{Mdu, calculate, mdu}
use simple_bus_mdu.Mdu.Arithmetic.{calculate-product, calculate-division}
use simple_bus_mdu.Mdu.Undivided.{burst_read-bad_division}
use simple_bus_mdu.Mdu.Timing.{idle, working, mdu-KeepsRange, idle-CountsDown}
use simple_bus_mdu.Mdu.NoWaitStates.{burst_read_unit_lapses}
use simple_bus_mdu.Masters.Testcase.{do_testcase, testcases, minus}
use simple_bus_mdu.Masters.Testcase.{do_testcase_directly}
use simple_bus_mdu.Masters.Direct.{holding, do_testcase_directly-prints}
use simple_bus_mdu.Word.{wrap64}
use simple_bus_mdu.Masters.Results.{ReadyUnit, Printed, IsUnitAddress, do_testcase-Printed, Expects}

-- The system of src/main.cpp: a unit with four wait states, and no call yet.
abbrev system : Bus Mdu
system = record { requests = []; current = none; slave_port = idle 0 0 4 ∷ []; cells = λ j. 0 }

system-checked : end_of_elaboration system.slave_port ≡ true
unfolding end_of_elaboration
system-checked = refl

system-Quiet : Quiet system
system-Quiet = record { current = refl; none_pending = tt; no_locks = tt }

system-Mounted : Mounted system.slave_port 0 (idle 0 0 4)
system-Mounted = checked-Mounted system.slave_port 0 system-checked refl

system-ReadyUnit : ReadyUnit system 0 0 0 4
system-ReadyUnit = record { quiet = system-Quiet; mounted = system-Mounted }

m_low-IsUnitAddress : IsUnitAddress Const.m_low
m_low-IsUnitAddress = record { aligned = refl; from = omega arith; to = omega arith }

m_high-IsUnitAddress : IsUnitAddress Const.m_high
m_high-IsUnitAddress = record { aligned = refl; from = omega arith; to = omega arith }

div-IsUnitAddress : IsUnitAddress Const.div
div-IsUnitAddress = record { aligned = refl; from = omega arith; to = omega arith }

modulo-IsUnitAddress : IsUnitAddress Const.modulo
modulo-IsUnitAddress = record { aligned = refl; from = omega arith; to = omega arith }

two_by_three : calculate (idle 2 3 4) Const.m_low ≡ returns 6
unfolding calculate ◌*ℤ◌
two_by_three = refl

do_testcase-Printed_example : Printed (do_testcase 5 system 2 3 Const.m_low) 0 2 3 4 6
do_testcase-Printed_example =
    do_testcase-Printed 5 system 0 0 0 4 2 3 Const.m_low system-ReadyUnit (λ e. omega arith)
      (omega arith) m_low-IsUnitAddress two_by_three

-- The results of the test cases of include/mdu_master.h.
abbrev pub results : List ℕ
results = 6 ∷ 1000 ∷ minus 123 ∷ 12 ∷ 6 ∷ 232830643 ∷ 2808348672 ∷ 4248401167 ∷ 1156317184 ∷ []

pub testcases-Expects : Expects 4 testcases results
unfolding calculate ◌*ℤ◌ quotient remainder
testcases-Expects = (
  m_low-IsUnitAddress,
  refl,
  (
    m_low-IsUnitAddress,
    refl,
    (
      m_low-IsUnitAddress,
      refl,
      (
        div-IsUnitAddress,
        refl,
        (
          modulo-IsUnitAddress,
          refl,
          (
            m_high-IsUnitAddress,
            refl,
            (
              m_low-IsUnitAddress,
              refl,
              (m_high-IsUnitAddress, refl, (m_low-IsUnitAddress, refl, refl)),
            ),
          ),
        ),
      ),
    ),
  ),
)

burst_read-takes_example :
    Completed (blocking false 5 system 1 7 Const.m_low 1 false) 0 (idle 0 0 4) (update (λ j. 0) 7 0)
    × StillWaits (blocking false 4 system 1 7 Const.m_low 1 false)
unfolding calculate ◌*ℤ◌
burst_read-takes_example =
    burst_read-takes mdu-KeepsRange system 1 7 Const.m_low 0 (idle 0 0 4) system-Quiet
      system-Mounted refl refl (omega arith) 4 0 (λ e. omega arith)
      (idle-CountsDown 0 0 4 Const.m_low refl) 5 4 (omega arith) (omega arith)

blocking-rejected_example : StillWaits (blocking true 1000 system 1 7 258 1 false)
blocking-rejected_example = blocking-rejected true 1000 system 1 7 258 system-Quiet (inl refl)

abbrev hasty_system : Bus Mdu
hasty_system = record system { slave_port = idle 0 0 0 ∷ [] }

hasty_system-checked : end_of_elaboration hasty_system.slave_port ≡ true
unfolding end_of_elaboration
hasty_system-checked = refl

burst_read_unit_lapses_example : StillWaits (blocking false 1000 hasty_system 1 7 Const.div 1 false)
burst_read_unit_lapses_example =
    burst_read_unit_lapses 1000 hasty_system 0 0 0 1 7 Const.div
      (record { current = refl; none_pending = tt; no_locks = tt })
      (checked-Mounted hasty_system.slave_port 0 hasty_system-checked refl) refl refl

calculate-product_example :
    (high low : ℕ) × (calculate (idle (minus 7) 3 4) Const.m_high ≡ returns high)
    × (calculate (idle (minus 7) 3 4) Const.m_low ≡ returns low)
    × (signed32 high *ℤ pos (2 ^ 32) +ℤ pos low ≡ signed32 (minus 7) *ℤ signed32 3)
calculate-product_example =
    calculate-product (idle (minus 7) 3 4) (record { op_a = omega arith; op_b = omega arith })

calculate-division_example :
    (q r : ℕ) × (calculate (idle (minus 7) 3 4) Const.div ≡ returns q)
    × (calculate (idle (minus 7) 3 4) Const.modulo ≡ returns r)
    × (signed32 q *ℤ signed32 3 +ℤ signed32 r ≡ signed32 (minus 7))
    × (magnitude (signed32 r) < magnitude (signed32 3))
    × SameSign (signed32 r) (signed32 (minus 7))
calculate-division_example =
    calculate-division (idle (minus 7) 3 4) (record { op_a = omega arith; op_b = omega arith })
      (record { nonzero = λ e. omega arith; no_overflow = λ e. omega arith })

-- Five divided by 0, and the least `int` by -1.
abbrev unit_holding : ℕ → ℕ → Bus Mdu
unit_holding a c = record system { slave_port = idle a c 4 ∷ [] }

unit_holding-checked : (a c : ℕ) → end_of_elaboration (unit_holding a c).slave_port ≡ true
unfolding end_of_elaboration
unit_holding-checked a c = refl

undivided_least :
    blocking false 5 (unit_holding 2147483648 4294967295) 1 7 Const.modulo 1 false
    ≡ fault bad_division
undivided_least =
    (burst_read-bad_division 5 0 (unit_holding 2147483648 4294967295) 0 2147483648 4294967295 4 1 7
      Const.modulo (record { current = refl; none_pending = tt; no_locks = tt })
      (checked-Mounted (unit_holding 2147483648 4294967295).slave_port 0
        (unit_holding-checked 2147483648 4294967295) refl)
      (λ e. omega arith) (omega arith) (omega arith) (inr (refl, refl)) (inr refl) (omega arith)
      (omega arith)).0

burst_read-bad_division_example :
    (blocking false 5 (unit_holding 5 0) 1 7 Const.div 1 false ≡ fault bad_division)
    × StillWaits (blocking false 4 (unit_holding 5 0) 1 7 Const.div 1 false)
burst_read-bad_division_example =
    burst_read-bad_division 5 4 (unit_holding 5 0) 0 5 0 4 1 7 Const.div
      (record { current = refl; none_pending = tt; no_locks = tt })
      (checked-Mounted (unit_holding 5 0).slave_port 0 (unit_holding-checked 5 0) refl)
      (λ e. omega arith) (omega arith) (omega arith) (inl refl) (inl refl) (omega arith)
      (omega arith)

-- The direct master on the unit of src/main.cpp: 90 and 7, at work.
abbrev busy_system : Bus Mdu
busy_system = record system { slave_port = working 5 3 4 2 ∷ [] }

busy_system-checked : end_of_elaboration busy_system.slave_port ≡ true
unfolding end_of_elaboration
busy_system-checked = refl

ninety_by_seven :
    (calculate (holding (working 5 3 4 2) 90 7) Const.m_high ≡ returns 0)
    × (calculate (holding (working 5 3 4 2) 90 7) Const.m_low ≡ returns 630)
    × (calculate (holding (working 5 3 4 2) 90 7) Const.div ≡ returns 12)
    × (calculate (holding (working 5 3 4 2) 90 7) Const.modulo ≡ returns 6)
unfolding calculate ◌*ℤ◌ quotient remainder
ninety_by_seven = (refl, refl, refl, refl)

do_testcase_directly-prints_example :
    (b' : Bus Mdu) × (do_testcase_directly busy_system 90 7
      ≡ returns (
        record {
          m_high = 0;
          m_low = 630;
          m_both = wrap64 (signed32 90 *ℤ signed32 7);
          div = 12;
          modulo = 6;
        },
        b',
      ))
    × Mounted b'.slave_port 0 (holding (working 5 3 4 2) 90 7)
do_testcase_directly-prints_example =
    do_testcase_directly-prints busy_system 0 (working 5 3 4 2) 90 7
      (checked-Mounted busy_system.slave_port 0 busy_system-checked refl) ninety_by_seven.0
      ninety_by_seven.1 ninety_by_seven.2 ninety_by_seven.3
