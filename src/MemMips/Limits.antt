-- ===== src/MemMips/Limits.antt =====
-- Two places where include/mem_mips.h stops or hangs: the end of its array, and its registers.
use simple_bus_mdu.Prelude.{
  ℕ, suc, ◌+◌, ◌/◌, ◌^◌, ◌<◌, ◌≡◌, refl, ◌⊎◌, inl, inr, true, false, none, get_elem?, get_elem?-lt,
  Option-cases, length, fault, exit_program, out_of_bounds, ltb, arith, List, [], ◌∷◌,
}
use simple_bus_mdu.Types.{u32}
use simple_bus_mdu.Bus.Forms.{Bus}
use simple_bus_mdu.Bus.Mounted.{Mounted}
use simple_bus_mdu.Bus.Blocking.{blocking}
use simple_bus_mdu.Bus.Quiet.{Quiet}
use simple_bus_mdu.Bus.Transactions.{StillWaits}
use simple_bus_mdu.Bus.Hangs.{burst_read_lapses}
use simple_bus_mdu.MemMips.Const
use simple_bus_mdu.MemMips.{
  MemMips, check_address_range, word_of, checked_word, lw, read, read_at, mem_mips,
}
use simple_bus_mdu.MemMips.Bytes.{IsWellFormed}
use simple_bus_mdu.MemMips.Timing.{idle, working, mem_mips-KeepsRange}

beyond : {A : Type 0} (xs : List A) (i : ℕ) → length xs < suc i → get_elem? xs i ≡ none
beyond [] i h = refl
beyond (x ∷ xs) i h = elim (Option-cases (get_elem? (x ∷ xs) i)) [
  | inl e ↦ e
  | inr (y, e) ↦ absurd (omega (arith, get_elem?-lt (x ∷ xs) i e))
]

word_of-beyond :
    (m : MemMips) (a : ℕ) → get_elem? m.mem (a / 4) ≡ none → word_of m a ≡ fault out_of_bounds
unfolding word_of
word_of-beyond m a e = ground arith

-- The check lets one word too many through: of a well-formed memory, the first word past the end is
-- read outside the array, while one further on ends the program.
pub lw_past_the_end :
    (m : MemMips) (a c : ℕ)
    → IsWellFormed m
    → a < 2 ^ 32
    → c < 2 ^ 32
    → a / 4 ≡ m.size
    → m.size < c / 4
    → (lw m a 0 ≡ fault out_of_bounds) × (lw m c 0 ≡ fault exit_program)
unfolding lw checked_word check_address_range
lw_past_the_end m a c v ha hc at past =
    let here : u32 (a + 0) ≡ a = omega arith in
    let there : u32 (c + 0) ≡ c = omega arith in
    let passes : ltb m.size (a / 4) ≡ false = ground arith in
    let stops : ltb m.size (c / 4) ≡ true = ground arith in
    let outside = word_of-beyond m a (beyond m.mem (a / 4) (omega (arith, v.sized))) in
    (rw (here, passes, outside) refl, rw (there, stops) refl)

-- On a quiet bus, a read of `OpTypeReg` or `AddrReg` of the idle memory still waits however many cycles
-- pass, whatever the number of wait states.
pub burst_read_register_lapses :
    (fuel : ℕ) (b : Bus MemMips) (k n p at a : ℕ) (m : MemMips)
    → Quiet b
    → Mounted b.slave_port k (idle m n)
    → (a ≡ Const.op_type_reg) ⊎ (a ≡ Const.addr_reg)
    → StillWaits (blocking false fuel b p at a 1 false)
unfolding read read_at
burst_read_register_lapses fuel b k n p at a m quiet mounted which = elim which [
  | inl e ↦ rw e (
      burst_read_lapses mem_mips-KeepsRange k (idle m n) (working m n 0) Const.op_type_reg
        (λ d. refl) (refl, refl) refl refl refl fuel b p at quiet mounted)
  | inr e ↦ rw e (
      burst_read_lapses mem_mips-KeepsRange k (idle m n) (working m n 0) Const.addr_reg (λ d. refl)
        (refl, refl) refl refl refl fuel b p at quiet mounted)
]
