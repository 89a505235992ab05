-- ===== src/Mips/Implements.antt =====
-- The processor of include/mips_v0.h implements the instructions of the architecture that use the
-- registers and `pc` alone.
use simple_bus_mdu.Prelude.{
  ℕ, ◌≡◌, ◌≢◌, refl, sym, ap, subst, ◌∙◌, Bool, true, false, none, some, returns, ◌==◌,
  if◌then◌else◌, Bool-cases, inl, inr, arith,
}
use simple_bus_mdu.Types.{SlaveIf}
use simple_bus_mdu.Bus.Forms.{update}
use simple_bus_mdu.Mips.{Mips, decode}
use simple_bus_mdu.Mips.Execute.{execute}
use simple_bus_mdu.Mips.Effects.{MasksAreSmall, HoldsWords, moved, execute-effect}
use simple_bus_mdu.Isa.{
  Instruction, of_registers, shift, immediate, branch, jump_register, jump, jump_and_link,
  IsEncodable, put, meaning, effect, register_traps, immediate_traps,
}
use simple_bus_mdu.Isa.Encoding.{encode}

-- The cells hold the registers of the architecture; that of register 0, which is 0, holds anything.
pub record HoldsRegisters (cells regs : ℕ → ℕ) : Type 0 where
  pub zero_is_0 : regs 0 ≡ 0
  pub others : (j : ℕ) → j ≢ 0 → cells j ≡ regs j

cleared_reads :
    (cells regs : ℕ → ℕ) → HoldsRegisters cells regs → (j : ℕ) → update cells 0 0 j ≡ regs j
cleared_reads cells regs h j = elim (Bool-cases (j == 0)) [
  | inl e ↦ let same : j ≡ 0 = ground arith in rw e (sym h.zero_is_0 ∙ ap regs (sym same))
  | inr e ↦ rw e (h.others j (ground arith))
]

cleared-HoldsRegisters :
    (cells regs : ℕ → ℕ) → HoldsRegisters cells regs → HoldsRegisters (update cells 0 0) regs
cleared-HoldsRegisters cells regs h = record {
  zero_is_0 = h.zero_is_0;
  others = λ j n. cleared_reads cells regs h j;
}

put-HoldsRegisters :
    (cells regs : ℕ → ℕ) (d v w : ℕ)
    → HoldsRegisters cells regs
    → v ≡ w
    → HoldsRegisters (update cells d v) (put regs d w)
put-HoldsRegisters cells regs d v w h e = elim (Bool-cases (d == 0)) [
  | inl z ↦ record { zero_is_0 = rw z (h.zero_is_0); others = λ j n. ground (arith, h.others j n) }
  | inr z ↦ record {
    zero_is_0 = ground (arith, h.zero_is_0);
    others = λ j n. ground (arith, h.others j n);
  }
]

-- No trap.
defined : {A : Type 0} (traps : Bool) (x y : A) → (if traps then none else some x) ≡ some y → x ≡ y
defined true x y e = cc
defined false x y e = cc

conclude :
    (cells regs regs' : ℕ → ℕ) (n pc pc' : ℕ)
    → HoldsRegisters cells regs
    → n ≡ pc
    → ◌≡◌ {A = (ℕ → ℕ) × ℕ} (regs, pc) (regs', pc')
    → HoldsRegisters cells regs' × (n ≡ pc')
conclude cells regs regs' n pc pc' h m e =
    (subst (HoldsRegisters cells) (ap (λ x. x.0) e) h, m ∙ ap (λ x. x.1) e)

-- What the program does, where the architecture does not trap.
effect-meaning :
    (ins : Instruction) (cells regs regs' : ℕ → ℕ) (pc pc' : ℕ)
    → HoldsRegisters cells regs
    → meaning ins regs pc ≡ some (regs', pc')
    → HoldsRegisters (effect ins cells pc).0 regs' × ((effect ins cells pc).1 ≡ pc')
unfolding meaning effect
effect-meaning (of_registers op rd rs rt) cells regs regs' pc pc' h e =
    let r = cleared_reads cells regs h in
    conclude _ _ regs' pc pc pc'
      (put-HoldsRegisters _ regs rd _ _ (cleared-HoldsRegisters cells regs h)
        (rw (r rs, r rt) refl))
      refl (defined (register_traps op (regs rs) (regs rt)) _ _ e)
effect-meaning (shift op rd rt shamt) cells regs regs' pc pc' h e =
    conclude _ _ regs' pc pc pc'
      (put-HoldsRegisters _ regs rd _ _ (cleared-HoldsRegisters cells regs h)
        (rw (cleared_reads cells regs h rt) refl))
      refl (defined false _ _ e)
effect-meaning (immediate op rt rs k) cells regs regs' pc pc' h e =
    conclude _ _ regs' pc pc pc'
      (put-HoldsRegisters _ regs rt _ _ (cleared-HoldsRegisters cells regs h)
        (rw (cleared_reads cells regs h rs) refl))
      refl (defined (immediate_traps op (regs rs) k) _ _ e)
effect-meaning (branch op rs rt k) cells regs regs' pc pc' h e =
    let r = cleared_reads cells regs h in
    conclude _ regs regs' _ _ pc' (cleared-HoldsRegisters cells regs h) (rw (r rs, r rt) refl)
      (defined false _ _ e)
effect-meaning (jump_register rs) cells regs regs' pc pc' h e =
    conclude _ regs regs' _ _ pc' (cleared-HoldsRegisters cells regs h)
      (cleared_reads cells regs h rs) (defined false _ _ e)
effect-meaning (jump target) cells regs regs' pc pc' h e =
    conclude _ regs regs' _ _ pc' (cleared-HoldsRegisters cells regs h) refl (defined false _ _ e)
effect-meaning (jump_and_link target) cells regs regs' pc pc' h e =
    conclude _ _ regs' _ _ pc'
      (put-HoldsRegisters _ regs 31 pc pc (cleared-HoldsRegisters cells regs h) refl) refl
      (defined false _ _ e)

-- From any state whose registers and `pc` hold 32-bit words, those of an architecture with a register 0
-- that is 0, the processor decodes and executes the word of an instruction that works on the registers
-- and `pc` alone: wherever the architecture does not trap on overflow, the registers other than 0 and
-- `pc` are those that it defines, and nothing else has changed; but for ANDI, ORI and XORI with a
-- constant of 2 ^ 15 or more.
pub execute-meaning :
    {S : Type 0} ⦃slave_if : SlaveIf S⦄
    → (fuel : ℕ) (p : Mips S) (ins : Instruction) (regs regs' : ℕ → ℕ) (pc' : ℕ) → IsEncodable ins
    → MasksAreSmall ins
    → HoldsWords p
    → HoldsRegisters p.bus.cells regs
    → meaning ins regs p.pc ≡ some (regs', pc')
    → (cells' : ℕ → ℕ) × (execute fuel p (decode (encode ins))
        ≡ returns (some (moved p (cells', pc'))))
      × HoldsRegisters cells' regs'
execute-meaning fuel p ins regs regs' pc' e small words holds defined =
    let (after, next) = effect-meaning ins p.bus.cells regs regs' p.pc pc' holds defined in
    (
      (effect ins p.bus.cells p.pc).0,
      execute-effect fuel p ins e small words
          ∙ ap (λ n. returns (some (moved p ((effect ins p.bus.cells p.pc).0, n)))) next,
      after,
    )
