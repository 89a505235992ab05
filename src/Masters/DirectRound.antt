-- ===== src/Masters/DirectRound.antt =====
-- What the direct master of the bus reads from the memory of simple_bus_headers/simple_bus_fast_mem.h:
-- src/simple_bus_master_direct.cpp.
use simple_bus_mdu.Prelude.{ℕ, ◌+◌, ◌%◌, ◌^◌, ◌≤◌, ◌<◌, ◌≡◌, refl, true, returns, word_at, arith}
use simple_bus_mdu.Types.{u32}
use simple_bus_mdu.Bus.Forms.{Bus, update}
use simple_bus_mdu.Bus.Mounted.{Mounted}
use simple_bus_mdu.FastMem.{FastMem, index_of, direct_read, fast_mem}
use simple_bus_mdu.FastMem.Laws.{IsWellFormed, Holds, read-word_at}
use simple_bus_mdu.Masters.Direct.{direct_read-done}
use simple_bus_mdu.Masters.Rounds.{peek, direct_round}

-- The word of an address.
abbrev pub held : FastMem → ℕ → ℕ
held m a = word_at m.mem (index_of m a)

direct_read-held :
    (m : FastMem) (d a : ℕ)
    → IsWellFormed m
    → Holds m a
    → direct_read m d a ≡ returns (true, held m a)
unfolding direct_read
direct_read-held m d a v h = rw (read-word_at m d a v h) refl

peek-held :
    (b : Bus FastMem) (k at a : ℕ) (m : FastMem)
    → Mounted b.slave_port k m
    → IsWellFormed m
    → Holds m a
    → a % 4 ≡ 0
    → peek b at a ≡ returns (record b { cells = update b.cells at (held m a) })
peek-held b k at a m mounted v h aligned =
    rw
      (direct_read-done b at a k m mounted (ground (arith, h)) (ground arith)
        (direct_read-held m (b.cells at) a v h))
      refl

-- On a bus with a well-formed memory that holds sixteen bytes from an address on, a multiple of 4, a
-- round of the direct master puts their four words in the four cells of its buffer, and changes
-- nothing else.
pub direct_round-held :
    (b : Bus FastMem) (k a : ℕ) (m : FastMem)
    → Mounted b.slave_port k m
    → IsWellFormed m
    → Holds m a
    → Holds m (a + 15)
    → a % 4 ≡ 0
    → direct_round b a
      ≡ returns (record b {
        cells =
            update
              (update (update (update b.cells 0 (held m a)) 1 (held m (a + 4))) 2 (held m (a + 8)))
              3
              (held m (a + 12));
      })
unfolding direct_round
direct_round-held b k a m mounted v first last aligned =
    let small : a + 15 < 2 ^ 32 = omega (arith, v.small, last) in
    let at_4 : u32 (a + 4) ≡ a + 4 = omega arith in
    let at_8 : u32 (a + 8) ≡ a + 8 = omega arith in
    let at_12 : u32 (a + 12) ≡ a + 12 = omega arith in
    let put : Bus FastMem → ℕ → ℕ → Bus FastMem =
      λ x at w. record x { cells = update x.cells at w } in
    let b1 : Bus FastMem = put b 0 (held m a) in
    let b2 : Bus FastMem = put b1 1 (held m (a + 4)) in
    let b3 : Bus FastMem = put b2 2 (held m (a + 8)) in
    let inside : (i : ℕ) → i ≤ 15 → Holds m (a + i) =
      λ i le. (omega (arith, first), omega (arith, last)) in
    rw
      (
        at_4,
        at_8,
        at_12,
        peek-held b k 0 a m mounted v first aligned,
        peek-held b1 k 1 (a + 4) m mounted v (inside 4 (omega arith)) (omega arith),
        peek-held b2 k 2 (a + 8) m mounted v (inside 8 (omega arith)) (omega arith),
        peek-held b3 k 3 (a + 12) m mounted v (inside 12 (omega arith)) (omega arith),
      )
      refl
