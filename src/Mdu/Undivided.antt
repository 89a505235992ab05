-- ===== src/Mdu/Undivided.antt =====
-- A division that C++ leaves undefined, asked of the unit of include/mdu.h over the bus.
use simple_bus_mdu.Prelude.{
  ℕ, zero, suc, ◌-◌, ◌%◌, ◌^◌, ◌≤◌, ◌<◌, ◌≡◌, ◌≢◌, refl, subst, ◌∙◌, ◌⊎◌, inl, inr, true, false,
  none, some, returns, fault, bad_division, Fault, ◌==◌, arith,
}
use simple_bus_mdu.Prelude.Int.{pos}
use simple_bus_mdu.Types.{Request, wait, SlaveIf}
use simple_bus_mdu.Word.{signed32}
use simple_bus_mdu.Word.Division.{Overflows}
use simple_bus_mdu.Bus.Forms.{Bus, burst}
use simple_bus_mdu.Bus.Slaves.{answers, get_slave}
use simple_bus_mdu.Bus.Service.{main_action, call_slave}
use simple_bus_mdu.Bus.Invariant.{transfer-faults}
use simple_bus_mdu.Bus.Action.{handle-some, handle_request-served}
use simple_bus_mdu.Bus.Sole.{Serving}
use simple_bus_mdu.Bus.Edge.{pick_sole}
use simple_bus_mdu.Bus.Mounted.{Mounted, Mounted-found}
use simple_bus_mdu.Bus.Calls.{Held, read-Held}
use simple_bus_mdu.Bus.Blocking.{await, blocking}
use simple_bus_mdu.Bus.Transactions.{StillWaits, blocking-StillWaits}
use simple_bus_mdu.Bus.Quiet.{Quiet, asked, burst-Serving}
use simple_bus_mdu.Mdu.Const
use simple_bus_mdu.Mdu.{Mdu, calculate, read, read_at, mdu}
use simple_bus_mdu.Mdu.Arithmetic.{calculate-undivided}
use simple_bus_mdu.Mdu.Timing.{idle, working, calculate-working, mdu-KeepsRange}

-- The fault of a slave stops the falling edge.
pub main_action-fault :
    {S : Type 0} ⦃slave_if : SlaveIf S⦄
    → (b : Bus S) (i : ℕ) (r : Request) (k : ℕ) (s : S) (e : Fault) → Serving b i r
    → r.do_write ≡ false
    → (r.address % 4 == 0) ≡ true
    → get_slave b.slave_port r.address ≡ some (k, s)
    → slave_if.read s (b.cells r.data_at) r.address ≡ fault e
    → main_action b ≡ fault e
unfolding main_action call_slave
main_action-fault b i r k s e v w aligned found stops =
    let b' : Bus _ = record b { current = some i } in
    let called : call_slave b' (record r { status = wait }) k s ≡ fault e = rw (w, stops) refl in
    let handled =
      handle-some b' i refl
      ∙ handle_request-served b' i v.at aligned found
      ∙ transfer-faults b' i (record r { status = wait }) k s e called in
    rw (pick_sole b i v, handled) refl

module _ (i k a c n address : ℕ) (aligned : (address % 4 == 0) ≡ true)
    (hit : answers (idle a c n) address ≡ true)
    (bad : calculate (idle a c n) address ≡ fault bad_division) where
  busy-Held :
      (m : ℕ) (b : Bus Mdu) (r : Request)
      → Serving b i r
      → r.do_write ≡ false
      → r.address ≡ address
      → Mounted b.slave_port k (working a c n (suc m))
      → Held mdu-KeepsRange i b k (working a c n m) r
  busy-Held m b r v w at mounted =
      read-Held mdu-KeepsRange i k b r (working a c n (suc m)) (working a c n (suc m)) v w
        (rw at aligned) (rw at hit) mounted (unfold read read_at in refl) (refl, refl)

  -- With `m` cycles left: the program stops in the one after them, and before that the thread waits.
  busy_stops :
      (m fuel : ℕ) (b : Bus Mdu) (r : Request)
      → Serving b i r
      → r.do_write ≡ false
      → r.address ≡ address
      → Mounted b.slave_port k (working a c n m)
      → (m < fuel → await fuel i b ≡ fault bad_division)
        × (fuel ≤ m → await fuel i b ≡ returns none)
  busy_stops m zero b r v w at mounted = (λ h. elim h [ ], λ h. unfold await in refl)
  busy_stops zero (suc fuel) b r v w at mounted =
      let stops =
        main_action-fault b i r k (working a c n 0) bad_division v w (rw at aligned)
          (rw at (Mounted-found b.slave_port k address mounted hit))
          (rw at (unfold read read_at in rw (calculate-working a c n 0 address ∙ bad) refl)) in
      (λ h. unfold await in rw stops refl, λ h. absurd (omega arith))
  busy_stops (suc m) (suc fuel) b r v w at mounted =
      let held = busy-Held m b r v w at mounted in
      let rest =
        busy_stops m fuel held.after (record r { status = wait }) held.serving w at held.mounted in
      (λ h. held.goes_on fuel ∙ rest.0 (omega arith), λ h. held.goes_on fuel ∙ rest.1 (omega arith))

  read_stops :
      (fuel : ℕ) (b : Bus Mdu) (r : Request)
      → n ≢ 0
      → Serving b i r
      → r.do_write ≡ false
      → r.address ≡ address
      → Mounted b.slave_port k (idle a c n)
      → (n < fuel → await fuel i b ≡ fault bad_division)
        × (fuel ≤ n → await fuel i b ≡ returns none)
  read_stops zero b r positive v w at mounted = (λ h. elim h [ ], λ h. unfold await in refl)
  read_stops (suc fuel) b r positive v w at mounted =
      let first : Held mdu-KeepsRange i b k (mdu.posedge (working a c n n)) r =
        read-Held mdu-KeepsRange i k b r (idle a c n) (working a c n n) v w (rw at aligned)
          (rw at hit) mounted (unfold read read_at in refl) (refl, refl) in
      let last : n ≡ suc (n - 1) = omega arith in
      let held : Held mdu-KeepsRange i b k (working a c n (n - 1)) r =
        subst (λ x. Held mdu-KeepsRange i b k (mdu.posedge (working a c n x)) r) last first in
      let rest =
        busy_stops (n - 1) fuel held.after (record r { status = wait }) held.serving w at
          held.mounted in
      (λ h. held.goes_on fuel ∙ rest.0 (omega arith), λ h. held.goes_on fuel ∙ rest.1 (omega arith))

-- The quotient of these integers is not defined, or it is no `int`.
abbrev pub HasNoQuotient : ℕ → ℕ → Type 0
HasNoQuotient a c = (signed32 c ≡ pos 0) ⊎ Overflows (signed32 a) (signed32 c)

words_without_quotient :
    (a c : ℕ)
    → a < 2 ^ 32
    → c < 2 ^ 32
    → HasNoQuotient a c
    → (c ≡ 0) ⊎ ((a ≡ 2 ^ 31) × (c ≡ 2 ^ 32 - 1))
words_without_quotient a c ha hc (inl e) = inl (ground arith)
words_without_quotient a c ha hc (inr o) = inr (ground arith, ground arith)

-- The address of one of the two divisions.
abbrev pub IsDivision : ℕ → Type 0
IsDivision address = (address ≡ Const.div) ⊎ (address ≡ Const.modulo)

division_faults :
    (a c n address : ℕ)
    → IsDivision address
    → (c ≡ 0) ⊎ ((a ≡ 2 ^ 31) × (c ≡ 2 ^ 32 - 1))
    → calculate (idle a c n) address ≡ fault bad_division
division_faults a c n address (inl e) h = rw e ((calculate-undivided (idle a c n) h).0)
division_faults a c n address (inr e) h = rw e ((calculate-undivided (idle a c n) h).1)

in_range :
    (a c n address : ℕ)
    → IsDivision address
    → ((address % 4 == 0) ≡ true) × (answers (idle a c n) address ≡ true)
in_range a c n address (inl e) = rw e (refl, refl)
in_range a c n address (inr e) = rw e (refl, refl)

-- On a quiet bus with an idle unit of `n` wait states, `n` at least 1, whose 32-bit operands are a zero
-- divisor, or the least `int` as the dividend and -1 as the divisor, as signed integers: a blocking read
-- of one word of Div or Mod waits for `n` cycles and stops the program in the next, whose division is
-- undefined in C++.
pub burst_read-bad_division :
    (fuel early : ℕ) (b : Bus Mdu) (k a c n p at address : ℕ)
    → Quiet b
    → Mounted b.slave_port k (idle a c n)
    → n ≢ 0
    → a < 2 ^ 32
    → c < 2 ^ 32
    → HasNoQuotient a c
    → IsDivision address
    → n < fuel
    → early ≤ n
    → (blocking false fuel b p at address 1 false ≡ fault bad_division)
      × StillWaits (blocking false early b p at address 1 false)
burst_read-bad_division fuel early b k a c n p at address quiet mounted positive ha hc bad asked_for
      enough short =
    let (i, b') = burst false b p at address 1 false in
    let (serving, slaves, cells) = burst-Serving false b p at address 1 quiet in
    let (aligned, hit) = in_range a c n address asked_for in
    let stops = division_faults a c n address asked_for (words_without_quotient a c ha hc bad) in
    let there : Mounted b'.slave_port k (idle a c n) = rw slaves mounted in
    let takes = λ (f : ℕ).
      read_stops i k a c n address aligned hit stops f b' (asked false p at address 1) positive
        serving refl refl there in
    (
      unfold blocking in rw ((takes fuel).0 enough) refl,
      blocking-StillWaits false early b p at address ((takes early).1 short),
    )
