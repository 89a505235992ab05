-- ===== src/Mips/Fetch.antt =====
-- One step of the processor, from the memory on: include/mips_v0.h (step, fetch).
use simple_bus_mdu.Prelude.{
  ℕ, ◌+◌, ◌*◌, ◌/◌, ◌%◌, ◌<◌, ◌≡◌, ◌≢◌, refl, ap, ◌∙◌, true, returns, arith,
}
use simple_bus_mdu.Types.{u32}
use simple_bus_mdu.MemMips.Const
use simple_bus_mdu.MemMips.{MemMips, direct_read}
use simple_bus_mdu.MemMips.Bytes.{IsWellFormed, Holds, four_bytes}
use simple_bus_mdu.MemMips.Timing.{idle}
use simple_bus_mdu.System.{Slave, slave}
use simple_bus_mdu.Wrapper.Laws.{ReadyMemory, selected, load_cells, load-Gave}
use simple_bus_mdu.Wrapper.Effects.{load_word, kept-Holds}
use simple_bus_mdu.Wrapper.RoundTrip.{lw_at}
use simple_bus_mdu.Mips.{Mips, plus, decode}
use simple_bus_mdu.Mips.Execute.{fetch, step, execute}

pub load_word_at :
    (m : MemMips) (n a : ℕ)
    → IsWellFormed m
    → Holds m a
    → a % 4 ≡ 0
    → direct_read (idle (selected m Const.word a) n) 0 Const.mem_addr
      ≡ returns (true, four_bytes m a)
load_word_at m n a v h aligned =
    let base : u32 (a + 0) / 4 * 4 ≡ a = omega (arith, h.0) in
    load_word m n a v (kept-Holds m m a refl h) ∙ ap (λ x. returns (true, four_bytes m x)) base

-- On a quiet bus with an idle, well-formed memory of `n` wait states, `n` at least 1, given more than
-- `n` cycles for each call, and with `pc` at a multiple of 4 that the memory holds: a step executes the
-- instruction whose four bytes are there, decoded, with `pc` at the next one. The fetch has left the bus
-- quiet, the memory idle with its words unchanged, and every cell but the locals of `load` as it was.
pub step-execute :
    (fuel : ℕ) (p : Mips Slave) (k n : ℕ) (m : MemMips)
    → ReadyMemory p.bus k m n
    → n ≢ 0
    → n < fuel
    → IsWellFormed m
    → Holds m p.pc
    → p.pc % 4 ≡ 0
    → (p' : Mips Slave) × (step fuel p ≡ execute fuel p' (decode (four_bytes m p.pc)))
      × (p'.pc ≡ plus p.pc 4)
      × ReadyMemory p'.bus k (selected m Const.word p.pc) n
      × (p'.bus.cells ≡ load_cells p.bus.cells Const.word p.pc (four_bytes m p.pc))
unfolding step fetch
step-execute fuel p k n m ready positive enough v h aligned =
    let got =
      load-Gave fuel p.bus k n Const.word p.pc m ready positive enough
        (load_word_at m n p.pc v h aligned) in
    (
      record p { bus = got.after; pc = plus p.pc 4 },
      rw (lw_at fuel p.bus p.pc h.0, got.computed) refl,
      refl,
      got.ready,
      got.stored,
    )
