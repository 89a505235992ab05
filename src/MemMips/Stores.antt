-- ===== src/MemMips/Stores.antt =====
-- What the stores of include/mem_mips.h change, byte for byte.
use simple_bus_mdu.Prelude.{
  ℕ, zero, suc, ◌+◌, ◌-◌, ◌*◌, ◌/◌, ◌%◌, ◌^◌, ◌≤◌, ◌<◌, ◌≡◌, refl, ap, ◌∙◌, inl, inr, false,
  All-set, returns, set, length-set, ltb, leb, ◌==◌, ◌&&◌, if◌then◌else◌, arith, Outcome,
  Bool-cases, ==→eq, word_at, word_at-set,
}
use simple_bus_mdu.Types.{u32}
use simple_bus_mdu.MemMips.{
  MemMips, checked_word, check_address_range, word_of, put_field, change, sb, sh, sw,
}
use simple_bus_mdu.MemMips.Bytes.{IsWellFormed, Holds, byte_of, byte_at, checked_word-word_at}

-- The memory `m'` is `m` with the `n` bytes of `d` from the address `a` on.
pub record Stored (m : MemMips) (call : Outcome MemMips) (a n d : ℕ) : Type 0 where
  pub after : MemMips
  pub computed : call ≡ returns after
  pub well : IsWellFormed after
  pub keeps : after ≡ record m { mem = after.mem }
  pub bytes :
      (b : ℕ)
      → byte_at after b ≡ (if leb a b && ltb b (a + n) then byte_of d (b - a) else byte_at m b)

change-Stored :
    (m : MemMips) (a n d : ℕ) (f : ℕ → ℕ)
    → IsWellFormed m
    → Holds m a
    → a % 4 + n ≤ 4
    → f (word_at m.mem (a / 4)) < 2 ^ 32
    → ((j : ℕ)
        → j < 4
        → byte_of (f (word_at m.mem (a / 4))) j ≡ (
            if leb (a % 4) j && ltb j (a % 4 + n)
            then byte_of d (j - a % 4)
            else byte_of (word_at m.mem (a / 4)) j))
    → Stored m (change m a f) a n d
unfolding change
change-Stored m a n d f v h fits small field =
    let w : ℕ = word_at m.mem (a / 4) in
    let (e, old) = checked_word-word_at m a v h in
    let after : MemMips = record m { mem = set m.mem (a / 4) (f w) } in
    record {
      after = after;
      computed = rw e refl;
      well = record {
        sized = length-set m.mem (a / 4) (f w) ∙ v.sized;
        words = All-set (λ x. x < 2 ^ 32) m.mem (a / 4) (f w) v.words small;
      };
      keeps = refl;
      bytes = λ b.
          let there = word_at-set m.mem (a / 4) (b / 4) (f w) (omega (arith, v.sized, h.1)) in
          elim (Bool-cases (b / 4 == a / 4)) [
            | inl same ↦
                let test : (leb a b && ltb b (a + n))
                    ≡ (leb (a % 4) (b % 4) && ltb (b % 4) (a % 4 + n)) =
                  ground arith in
                let far : b - a ≡ b % 4 - a % 4 = ground arith in
                let kept : word_at m.mem (b / 4) ≡ w =
                  ap (word_at m.mem) (==→eq (b / 4) (a / 4) same) in
                rw (there, same, test, far, kept) (field (b % 4) (omega arith))
            | inr other ↦
                let test : (leb a b && ltb b (a + n)) ≡ false = ground arith in
                rw (there, other, test) refl
          ];
    }

field_1 :
    (w k d : ℕ)
    → w < 2 ^ 32
    → k < 4
    → (j : ℕ) → j < 4
    → byte_of (put_field 8 (8 * k) w d) j
      ≡ (if leb k j && ltb j (k + 1) then byte_of d (j - k) else byte_of w j)
field_1 w zero d h lt zero lt' = ground arith
field_1 w zero d h lt (suc zero) lt' = ground arith
field_1 w zero d h lt (suc (suc zero)) lt' = ground arith
field_1 w zero d h lt (suc (suc (suc zero))) lt' = ground arith
field_1 w zero d h lt (suc (suc (suc (suc j)))) lt' = absurd (omega arith)
field_1 w (suc zero) d h lt zero lt' = ground arith
field_1 w (suc zero) d h lt (suc zero) lt' = ground arith
field_1 w (suc zero) d h lt (suc (suc zero)) lt' = ground arith
field_1 w (suc zero) d h lt (suc (suc (suc zero))) lt' = ground arith
field_1 w (suc zero) d h lt (suc (suc (suc (suc j)))) lt' = absurd (omega arith)
field_1 w (suc (suc zero)) d h lt zero lt' = ground arith
field_1 w (suc (suc zero)) d h lt (suc zero) lt' = ground arith
field_1 w (suc (suc zero)) d h lt (suc (suc zero)) lt' = ground arith
field_1 w (suc (suc zero)) d h lt (suc (suc (suc zero))) lt' = ground arith
field_1 w (suc (suc zero)) d h lt (suc (suc (suc (suc j)))) lt' = absurd (omega arith)
field_1 w (suc (suc (suc zero))) d h lt zero lt' = ground arith
field_1 w (suc (suc (suc zero))) d h lt (suc zero) lt' = ground arith
field_1 w (suc (suc (suc zero))) d h lt (suc (suc zero)) lt' = ground arith
field_1 w (suc (suc (suc zero))) d h lt (suc (suc (suc zero))) lt' = ground arith
field_1 w (suc (suc (suc zero))) d h lt (suc (suc (suc (suc j)))) lt' = absurd (omega arith)
field_1 w (suc (suc (suc (suc k)))) d h lt j lt' = absurd (omega arith)

field_2 :
    (w k d : ℕ)
    → w < 2 ^ 32
    → k < 2
    → (j : ℕ) → j < 4
    → byte_of (put_field 16 (16 * k) w d) j
      ≡ (if leb (2 * k) j && ltb j (2 * k + 2) then byte_of d (j - 2 * k) else byte_of w j)
field_2 w zero d h lt zero lt' = ground arith
field_2 w zero d h lt (suc zero) lt' = ground arith
field_2 w zero d h lt (suc (suc zero)) lt' = ground arith
field_2 w zero d h lt (suc (suc (suc zero))) lt' = ground arith
field_2 w zero d h lt (suc (suc (suc (suc j)))) lt' = absurd (omega arith)
field_2 w (suc zero) d h lt zero lt' = ground arith
field_2 w (suc zero) d h lt (suc zero) lt' = ground arith
field_2 w (suc zero) d h lt (suc (suc zero)) lt' = ground arith
field_2 w (suc zero) d h lt (suc (suc (suc zero))) lt' = ground arith
field_2 w (suc zero) d h lt (suc (suc (suc (suc j)))) lt' = absurd (omega arith)
field_2 w (suc (suc k)) d h lt j lt' = absurd (omega arith)

put_field-byte_lt : (w k d : ℕ) → w < 2 ^ 32 → k < 4 → put_field 8 (8 * k) w d < 2 ^ 32
put_field-byte_lt w zero d h lt = omega arith
put_field-byte_lt w (suc zero) d h lt = omega arith
put_field-byte_lt w (suc (suc zero)) d h lt = omega arith
put_field-byte_lt w (suc (suc (suc zero))) d h lt = omega arith
put_field-byte_lt w (suc (suc (suc (suc k)))) d h lt = absurd (omega arith)

put_field-half_lt : (w k d : ℕ) → w < 2 ^ 32 → k < 2 → put_field 16 (16 * k) w d < 2 ^ 32
put_field-half_lt w zero d h lt = omega arith
put_field-half_lt w (suc zero) d h lt = omega arith
put_field-half_lt w (suc (suc k)) d h lt = absurd (omega arith)

-- Only the word of the address matters.
word_of_in_word : (m : MemMips) (a base : ℕ) → a / 4 ≡ base / 4 → word_of m a ≡ word_of m base
unfolding word_of
word_of_in_word m a base e = rw (e, word_of) refl

change_in_word :
    (m : MemMips) (a base : ℕ) (f : ℕ → ℕ) → a / 4 ≡ base / 4 → change m a f ≡ change m base f
unfolding change checked_word check_address_range
change_in_word m a base f e = rw (e, word_of_in_word m a base e) refl

whole_word :
    (w d j : ℕ)
    → j < 4
    → byte_of d j ≡ (if leb 0 j && ltb j 4 then byte_of d (j - 0) else byte_of w j)
whole_word w d j lt = ground arith

sh_lem :
    (m : MemMips) (addr kte d : ℕ)
    → IsWellFormed m
    → Holds m (u32 (addr + kte % 2 ^ 5))
    → Stored m (sh m addr kte d) (u32 (addr + kte % 2 ^ 5) / 2 * 2) 2 d
unfolding sh
sh_lem m addr kte d v h =
    let a : ℕ = u32 (addr + kte % 2 ^ 5) in
    let base : ℕ = a / 2 * 2 in
    let k : ℕ = a / 2 % 2 in
    let lane : base % 4 ≡ 2 * k = omega arith in
    let same : a / 4 ≡ base / 4 = omega arith in
    let (e, old) = checked_word-word_at m base v (omega (arith, h.0), omega (arith, h.1)) in
    rw (change_in_word m a base (λ w. put_field 16 (16 * k) w d) same) (
      change-Stored m base 2 d (λ w. put_field 16 (16 * k) w d) v
        (omega (arith, h.0), omega (arith, h.1)) (omega arith)
        (put_field-half_lt _ k d old (omega arith))
        (rw lane (field_2 (word_at m.mem (base / 4)) k d old (omega arith))))

-- At an address that a well-formed memory holds, `sb` stores one byte; `sh` stores two, from the
-- even address at or below it; and `sw` four, from the multiple of 4 at or below it. Every other
-- byte is as before, and the memory stays well formed.
pub stores-Stored :
    (m : MemMips) (addr kte d : ℕ)
    → IsWellFormed m
    → Holds m (u32 (addr + kte % 2 ^ 5))
    → d < 2 ^ 32
    → Stored m (sb m addr kte d) (u32 (addr + kte % 2 ^ 5)) 1 d
      × Stored m (sh m addr kte d) (u32 (addr + kte % 2 ^ 5) / 2 * 2) 2 d
      × Stored m (sw m addr kte d) (u32 (addr + kte % 2 ^ 5) / 4 * 4) 4 d
unfolding sb sw
stores-Stored m addr kte d v h small =
    let a : ℕ = u32 (addr + kte % 2 ^ 5) in
    let word : ℕ = a / 4 * 4 in
    let k : ℕ = a % 4 in
    let (e, old) = checked_word-word_at m a v h in
    let lane : word % 4 ≡ 0 = omega arith in
    (
      change-Stored m a 1 d (λ w. put_field 8 (8 * k) w d) v h (omega arith)
          (put_field-byte_lt _ k d old (omega arith))
          (field_1 (word_at m.mem (a / 4)) k d old (omega arith)),
      sh_lem m addr kte d v h,
      rw (change_in_word m a word (λ w. d) (omega arith)) (
          change-Stored m word 4 d (λ w. d) v (omega (arith, h.0), omega (arith, h.1)) (omega arith)
            small (rw lane (whole_word (word_at m.mem (word / 4)) d))),
    )
