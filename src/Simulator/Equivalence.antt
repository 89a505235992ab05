-- ===== src/Simulator/Equivalence.antt =====
-- MipsCpp/mips.cpp and include/mips_v0.h, which was made of it, instruction by instruction.
use simple_bus_mdu.Prelude.{ℕ, ◌<◌, ◌≡◌, refl, sym, some, returns, arith}
use simple_bus_mdu.Types.{SlaveIf}
use simple_bus_mdu.Bus.Forms.{update}
use simple_bus_mdu.Mips
use simple_bus_mdu.Mips.{Mips}
use simple_bus_mdu.Mips.Execute
use simple_bus_mdu.Mips.Effects.{MasksAreSmall, HoldsWords}
use simple_bus_mdu.Mips.Effects as Processor
use simple_bus_mdu.Simulator
use simple_bus_mdu.Simulator.{Machine}
use simple_bus_mdu.Simulator.Execute as Simulated
use simple_bus_mdu.Simulator.Implements.{OffsetsAreSmall}
use simple_bus_mdu.Simulator.Implements as Machines
use simple_bus_mdu.Isa.{
  Instruction, of_registers, shift, immediate, branch, jump_register, jump, jump_and_link,
  IsEncodable, effect,
}
use simple_bus_mdu.Isa.Encoding.{encode}

-- The same 32 registers.
abbrev pub SameRegisters : (ℕ → ℕ) → (ℕ → ℕ) → Type 0
SameRegisters f g = (j : ℕ) → j < 32 → f j ≡ g j

update-SameRegisters :
    (f g : ℕ → ℕ) (r v w : ℕ)
    → SameRegisters f g
    → v ≡ w
    → SameRegisters (update f r v) (update g r w)
update-SameRegisters f g r v w h e j lt = ground (arith, h j lt)

cleared-SameRegisters :
    (f g : ℕ → ℕ) → SameRegisters f g → SameRegisters (update f 0 0) (update g 0 0)
cleared-SameRegisters f g h = update-SameRegisters f g 0 0 0 h refl

-- An instruction looks at no other register.
effect-SameRegisters :
    (ins : Instruction) (f g : ℕ → ℕ) (pc : ℕ)
    → IsEncodable ins
    → SameRegisters f g
    → SameRegisters (effect ins f pc).0 (effect ins g pc).0
      × ((effect ins f pc).1 ≡ (effect ins g pc).1)
unfolding effect
effect-SameRegisters (of_registers op rd rs rt) f g pc e h =
    let z = cleared-SameRegisters f g h in
    (update-SameRegisters _ _ rd _ _ z (rw (z rs e.1, z rt e.2) refl), refl)
effect-SameRegisters (shift op rd rt shamt) f g pc e h =
    let z = cleared-SameRegisters f g h in
    (update-SameRegisters _ _ rd _ _ z (rw (z rt e.1) refl), refl)
effect-SameRegisters (immediate op rt rs k) f g pc e h =
    let z = cleared-SameRegisters f g h in
    (update-SameRegisters _ _ rt _ _ z (rw (z rs e.1) refl), refl)
effect-SameRegisters (branch op rs rt k) f g pc e h =
    let z = cleared-SameRegisters f g h in (z, rw (z rs e.0, z rt e.1) refl)
effect-SameRegisters (jump_register rs) f g pc e h =
    let z = cleared-SameRegisters f g h in (z, z rs e)
effect-SameRegisters (jump target) f g pc e h = (cleared-SameRegisters f g h, refl)
effect-SameRegisters (jump_and_link target) f g pc e h =
    (update-SameRegisters _ _ 31 pc pc (cleared-SameRegisters f g h) refl, refl)

-- The processor and the simulator with the same registers and the same `pc`.
abbrev pub Agree : {S : Type 0} → Mips S → Machine → Type 0
Agree p m = SameRegisters p.bus.cells m.breg × (p.pc ≡ m.pc)

-- Both in one step from states with the same registers and the same `pc`, of 32-bit words, the
-- processor and the simulator decode and execute the word of an instruction that works on the registers
-- and `pc` alone, and have the same registers and the same `pc` after it; but for ANDI, ORI, XORI,
-- SLTIU and the branches with a constant of 2 ^ 15 or more.
pub execute-Agree :
    {S : Type 0} ⦃slave_if : SlaveIf S⦄
    → (fuel : ℕ) (p : Mips S) (m : Machine) (ins : Instruction) → IsEncodable ins
    → MasksAreSmall ins
    → OffsetsAreSmall ins
    → HoldsWords p
    → Machines.HoldsWords m
    → Agree p m
    → (p' : Mips S) × (m' : Machine) × (Mips.Execute.execute fuel p (Mips.decode (encode ins))
        ≡ returns (some p'))
      × (Simulated.execute m (Simulator.decode (encode ins)) ≡ returns m')
      × Agree p' m'
execute-Agree fuel p m ins e masks offsets words words' (same, pcs) =
    let (regs, pc) = effect-SameRegisters ins p.bus.cells m.breg p.pc e same in
    (
      Processor.moved p (effect ins p.bus.cells p.pc),
      Machines.moved m (effect ins m.breg m.pc),
      Processor.execute-effect fuel p ins e masks words,
      Machines.execute-effect m ins e offsets words',
      rw (sym pcs) (regs, pc),
    )
