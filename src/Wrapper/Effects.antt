-- ===== src/Wrapper/Effects.antt =====
-- What the two registers of include/mem_mips.h and one access through them come to, byte for byte.
use simple_bus_mdu.Prelude.{
  ℕ, ◌+◌, ◌-◌, ◌*◌, ◌/◌, ◌^◌, ◌<◌, ◌≡◌, refl, ap, ◌∙◌, true, returns, if◌then◌else◌, ltb, leb, ◌&&◌,
  arith,
}
use simple_bus_mdu.Types.{u32}
use simple_bus_mdu.MemMips.Const
use simple_bus_mdu.MemMips.{MemMips, int8, direct_read, direct_write}
use simple_bus_mdu.MemMips.Bytes.{IsWellFormed, Holds, Loads-byte_at, byte_of, byte_at, four_bytes}
use simple_bus_mdu.MemMips.Stores.{stores-Stored}
use simple_bus_mdu.MemMips.Timing.{idle}
use simple_bus_mdu.System.{slave}
use simple_bus_mdu.Wrapper.Laws.{selected}

selected-IsWellFormed :
    (m : MemMips) (n op_type addr : ℕ)
    → IsWellFormed m
    → IsWellFormed (idle (selected m op_type addr) n)
selected-IsWellFormed m n op_type addr v = record { sized = v.sized; words = v.words }

-- The memory after a store, but for its wait states.
abbrev kept : MemMips → ℕ → ℕ → MemMips → MemMips
kept m op_type addr after = record (selected m op_type addr) { mem = after.mem }

pub store_byte :
    (m : MemMips) (n addr d : ℕ)
    → IsWellFormed m
    → Holds m (u32 (addr + 0))
    → d < 2 ^ 32
    → (m' : MemMips) × (direct_write (idle (selected m Const.byte addr) n) d Const.mem_addr
        ≡ returns (true, idle m' n))
      × IsWellFormed m'
      × (m'.size ≡ m.size)
      × ((b : ℕ)
          → byte_at m' b ≡ (
              if leb (u32 (addr + 0)) b && ltb b (u32 (addr + 0) + 1)
              then byte_of d (b - u32 (addr + 0))
              else byte_at m b))
store_byte m n addr d v h small =
    let m1 : MemMips = idle (selected m Const.byte addr) n in
    let s = (stores-Stored m1 addr 0 d (selected-IsWellFormed m n Const.byte addr v) h small).0 in
    (
      kept m Const.byte addr s.after,
      unfold direct_write in rw (s.computed) (ap (λ x. returns (true, x)) s.keeps),
      record { sized = s.well.sized ∙ ap (λ (x : MemMips). x.size) s.keeps; words = s.well.words },
      refl,
      s.bytes,
    )

pub store_word :
    (m : MemMips) (n addr d : ℕ)
    → IsWellFormed m
    → Holds m (u32 (addr + 0))
    → d < 2 ^ 32
    → (m' : MemMips) × (direct_write (idle (selected m Const.word addr) n) d Const.mem_addr
        ≡ returns (true, idle m' n))
      × IsWellFormed m'
      × (m'.size ≡ m.size)
      × ((b : ℕ)
          → byte_at m' b ≡ (
              if leb (u32 (addr + 0) / 4 * 4) b && ltb b (u32 (addr + 0) / 4 * 4 + 4)
              then byte_of d (b - u32 (addr + 0) / 4 * 4)
              else byte_at m b))
store_word m n addr d v h small =
    let m1 : MemMips = idle (selected m Const.word addr) n in
    let s = (stores-Stored m1 addr 0 d (selected-IsWellFormed m n Const.word addr v) h small).2 in
    (
      kept m Const.word addr s.after,
      unfold direct_write in rw (s.computed) (ap (λ x. returns (true, x)) s.keeps),
      record { sized = s.well.sized ∙ ap (λ (x : MemMips). x.size) s.keeps; words = s.well.words },
      refl,
      s.bytes,
    )

pub load_byte :
    (m : MemMips) (n addr : ℕ)
    → IsWellFormed m
    → Holds m (u32 (addr + 0))
    → direct_read (idle (selected m Const.byte addr) n) 0 Const.mem_addr
      ≡ returns (true, int8 (byte_at m (u32 (addr + 0))))
unfolding direct_read
load_byte m n addr v h =
    let m1 : MemMips = idle (selected m Const.byte addr) n in
    let l = Loads-byte_at m1 addr 0 (selected-IsWellFormed m n Const.byte addr v) h in
    rw l.of_lb refl

pub load_word :
    (m : MemMips) (n addr : ℕ)
    → IsWellFormed m
    → Holds m (u32 (addr + 0))
    → direct_read (idle (selected m Const.word addr) n) 0 Const.mem_addr
      ≡ returns (true, four_bytes m (u32 (addr + 0) / 4 * 4))
unfolding direct_read
load_word m n addr v h =
    let m1 : MemMips = idle (selected m Const.word addr) n in
    let l = Loads-byte_at m1 addr 0 (selected-IsWellFormed m n Const.word addr v) h in
    rw l.of_lw refl

pub kept-Holds : (m m' : MemMips) (a : ℕ) → m'.size ≡ m.size → Holds m a → Holds m' (u32 (a + 0))
kept-Holds m m' a e h = (omega arith, omega (arith, h.0, h.1, e))
