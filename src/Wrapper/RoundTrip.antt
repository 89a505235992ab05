-- ===== src/Wrapper/RoundTrip.antt =====
-- A store and a load, both over the bus: include/mem_mips_bus_wrapper.h on include/mem_mips.h.
use simple_bus_mdu.Prelude.{
  ℕ, zero, suc, ◌+◌, ◌-◌, ◌*◌, ◌/◌, ◌%◌, ◌^◌, ◌<◌, ◌≡◌, ◌≢◌, refl, ap, ◌∙◌, inl, inr, true, false,
  some, returns, ◌==◌, if◌then◌else◌, ltb, leb, ◌&&◌, Bool-cases, arith, word_at, ==→eq,
}
use simple_bus_mdu.Types.{u32}
use simple_bus_mdu.Bus.Forms.{Bus}
use simple_bus_mdu.MemMips.Const
use simple_bus_mdu.MemMips.{MemMips, int8}
use simple_bus_mdu.MemMips.Bytes.{IsWellFormed, Holds, byte_of, byte_at, four_bytes}
use simple_bus_mdu.System.{Slave, slave}
use simple_bus_mdu.Wrapper.{lb, lw, sb, sw, load, store}
use simple_bus_mdu.Wrapper.Laws.{ReadyMemory, load-Gave, store-Left}
use simple_bus_mdu.Wrapper.Effects.{store_byte, store_word, load_byte, load_word, kept-Holds}

plus_zero : (a : ℕ) → a < 2 ^ 32 → u32 (a + 0) ≡ a
plus_zero a h = omega arith

narrowed : (b : ℕ) → b < 256 → int8 (int8 b % 2 ^ 8) ≡ int8 b
narrowed b h = ground arith

byte_of_lt : (w k : ℕ) → byte_of w k < 256
byte_of_lt w zero = omega arith
byte_of_lt w (suc zero) = omega arith
byte_of_lt w (suc (suc zero)) = omega arith
byte_of_lt w (suc (suc (suc k))) = omega arith

int8-byte_of : (d : ℕ) → byte_of (int8 (d % 2 ^ 8)) 0 ≡ d % 256
int8-byte_of d = ground arith

sb_at :
    (fuel : ℕ) (b : Bus Slave) (a d : ℕ)
    → a < 2 ^ 32
    → sb fuel b a 0 d ≡ store fuel b Const.byte a (int8 (d % 2 ^ 8))
unfolding sb
sb_at fuel b a d h = ap (λ x. store fuel b Const.byte x (int8 (d % 2 ^ 8))) (plus_zero a h)

sw_at :
    (fuel : ℕ) (b : Bus Slave) (a d : ℕ)
    → a < 2 ^ 32
    → sw fuel b a 0 d ≡ store fuel b Const.word a d
unfolding sw
sw_at fuel b a d h = ap (λ x. store fuel b Const.word x d) (plus_zero a h)

lb_at :
    (fuel : ℕ) (b b' : Bus Slave) (a v : ℕ)
    → a < 2 ^ 32
    → load fuel b Const.byte a ≡ returns (some (v, b'))
    → lb fuel b a 0 ≡ returns (some (int8 (v % 2 ^ 8), b'))
unfolding lb
lb_at fuel b b' a v h e = rw (plus_zero a h, e) refl

pub lw_at :
    (fuel : ℕ) (b : Bus Slave) (a : ℕ) → a < 2 ^ 32 → lw fuel b a 0 ≡ load fuel b Const.word a
unfolding lw
lw_at fuel b a h = ap (λ x. load fuel b Const.word x) (plus_zero a h)

stored_byte :
    (a c d old : ℕ)
    → (if leb a c && ltb c (a + 1) then byte_of (int8 (d % 2 ^ 8)) (c - a) else old)
      ≡ (if c == a then d % 256 else old)
stored_byte a c d old = elim (Bool-cases (c == a)) [
  | inl e ↦
      let test : (leb a c && ltb c (a + 1)) ≡ true = ground arith in
      let none_over : c - a ≡ 0 = ground arith in rw (test, e, none_over) (int8-byte_of d)
  | inr e ↦ let test : (leb a c && ltb c (a + 1)) ≡ false = ground arith in rw (test, e) refl
]

-- On a quiet bus with an idle, well-formed memory of `n` wait states, `n` at least 1, given more than
-- `n` cycles for each call: after a byte is stored at the address `a`, a load of the byte at `c` gives
-- it if `c` is `a`, and else the byte that was there, with its sign extended.
pub lb-sb :
    (fuel : ℕ) (b : Bus Slave) (k n a c d : ℕ) (m : MemMips)
    → ReadyMemory b k m n
    → n ≢ 0
    → n < fuel
    → IsWellFormed m
    → Holds m a
    → Holds m c
    → (b1 b2 : Bus Slave) × (sb fuel b a 0 d ≡ returns (some b1))
      × (lb fuel b1 c 0 ≡ returns (some (int8 (if c == a then d % 256 else byte_at m c), b2)))
lb-sb zero b k n a c d m r positive enough v ha hc = elim enough [ ]
lb-sb (suc fuel) b k n a c d m r positive enough v ha hc =
    let here = plus_zero a ha.0 in
    let there = plus_zero c hc.0 in
    let (m', wrote, well, size, bytes) =
      store_byte m n a (int8 (d % 2 ^ 8)) v (kept-Holds m m a refl ha) (ground arith) in
    let one = store-Left fuel b k n Const.byte a (int8 (d % 2 ^ 8)) m m' r wrote in
    let two =
      load-Gave (suc fuel) one.after k n Const.byte c m' one.ready positive enough
        (load_byte m' n c well (kept-Holds m m' c size hc)) in
    let value : byte_at m' (u32 (c + 0)) ≡ (if c == a then d % 256 else byte_at m c) =
      rw there (bytes c ∙ rw here (stored_byte a c d (byte_at m c))) in
    (
      one.after,
      two.after,
      sb_at (suc fuel) b a d ha.0 ∙ one.computed,
      lb_at (suc fuel) one.after two.after c _ hc.0 two.computed
          ∙ ap (λ x. returns (some (x, two.after)))
              (narrowed (byte_at m' (u32 (c + 0)))
                  (byte_of_lt (word_at m'.mem (u32 (c + 0) / 4)) (u32 (c + 0) % 4))
                ∙ ap int8 value),
    )

four_bytes_of :
    (d : ℕ)
    → d < 2 ^ 32
    → byte_of d 0 + 256 * byte_of d 1 + 65536 * byte_of d 2 + 16777216 * byte_of d 3 ≡ d
four_bytes_of d h = omega arith

stored_word :
    (m m' : MemMips) (a c d : ℕ)
    → a % 4 ≡ 0
    → c % 4 ≡ 0
    → d < 2 ^ 32
    → ((j : ℕ)
        → byte_at m' j ≡ (if leb a j && ltb j (a + 4) then byte_of d (j - a) else byte_at m j))
    → four_bytes m' c ≡ (if c == a then d else four_bytes m c)
stored_word m m' a c d ea ec small bytes = elim (Bool-cases (c == a)) [
  | inl e ↦
      let same = ==→eq c a e in
      let lane : (i : ℕ) → i < 4 → byte_at m' (c + i) ≡ byte_of d i = λ i lt.
        let test : (leb a (c + i) && ltb (c + i) (a + 4)) ≡ true = ground arith in
        let far : c + i - a ≡ i = omega (arith, same) in bytes (c + i) ∙ rw (test, far) refl in
      let first : byte_at m' c ≡ byte_of d 0 =
        let test : (leb a c && ltb c (a + 4)) ≡ true = ground arith in
        let far : c - a ≡ 0 = omega (arith, same) in bytes c ∙ rw (test, far) refl in
      rw (e, first, lane 1 (omega arith), lane 2 (omega arith), lane 3 (omega arith))
        (four_bytes_of d small)
  | inr e ↦
      let lane : (i : ℕ) → i < 4 → byte_at m' (c + i) ≡ byte_at m (c + i) = λ i lt.
        let test : (leb a (c + i) && ltb (c + i) (a + 4)) ≡ false = ground arith in
        bytes (c + i) ∙ rw test refl in
      let first : byte_at m' c ≡ byte_at m c =
        let test : (leb a c && ltb c (a + 4)) ≡ false = ground arith in bytes c ∙ rw test refl in
      rw (e, first, lane 1 (omega arith), lane 2 (omega arith), lane 3 (omega arith)) refl
]

-- On a quiet bus with an idle, well-formed memory of `n` wait states, `n` at least 1, given more than
-- `n` cycles for each call: after a word is stored at the address `a`, a load of the word at `c`, both
-- multiples of 4, gives it if `c` is `a`, and else the four bytes that were there.
pub lw-sw :
    (fuel : ℕ) (b : Bus Slave) (k n a c d : ℕ) (m : MemMips)
    → ReadyMemory b k m n
    → n ≢ 0
    → n < fuel
    → IsWellFormed m
    → Holds m a
    → Holds m c
    → a % 4 ≡ 0
    → c % 4 ≡ 0
    → d < 2 ^ 32
    → (b1 b2 : Bus Slave) × (sw fuel b a 0 d ≡ returns (some b1))
      × (lw fuel b1 c 0 ≡ returns (some ((if c == a then d else four_bytes m c), b2)))
lw-sw zero b k n a c d m r positive enough v ha hc ea ec small = elim enough [ ]
lw-sw (suc fuel) b k n a c d m r positive enough v ha hc ea ec small =
    let here : u32 (a + 0) / 4 * 4 ≡ a = omega (arith, ha.0) in
    let there : u32 (c + 0) / 4 * 4 ≡ c = omega (arith, hc.0) in
    let (m', wrote, well, size, bytes) = store_word m n a d v (kept-Holds m m a refl ha) small in
    let one = store-Left fuel b k n Const.word a d m m' r wrote in
    let two =
      load-Gave (suc fuel) one.after k n Const.word c m' one.ready positive enough
        (load_word m' n c well (kept-Holds m m' c size hc)) in
    (
      one.after,
      two.after,
      sw_at (suc fuel) b a d ha.0 ∙ one.computed,
      lw_at (suc fuel) one.after c hc.0
          ∙ two.computed
          ∙ ap (λ x. returns (some (x, two.after)))
              (rw there (stored_word m m' a c d ea ec small (rw here at bytes))),
    )
