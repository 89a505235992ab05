-- ===== src/Simulator/Ending.antt =====
-- That `run` of MipsCpp/mips.cpp comes to an end on a program without jumps.
use simple_bus_mdu.Prelude.{
  ℕ, zero, suc, ◌+◌, ◌*◌, ◌/◌, ◌^◌, ◌≤◌, ◌<◌, ◌≡◌, refl, ◌⊎◌, inl, inr, true, false, List, Option,
  some, Outcome, returns, fault, Fault, get_elem?, word_at, ltb, ◌>>=◌, arith, Bool-cases,
  Option-cases, out_of_bounds,
}
use simple_bus_mdu.Types.{u32}
use simple_bus_mdu.Mips.Codes
use simple_bus_mdu.Mips.{less_than, plus}
use simple_bus_mdu.Simulator.Memory.{lw, word, check_address_range, mem_size}
use simple_bus_mdu.Simulator.{Machine, init, decode}
use simple_bus_mdu.Simulator.Execute.{execute, fetch, step, loop, run}
use simple_bus_mdu.Simulator.Forward.{Gives, Forward, may_go_back, execute-Forward}

-- No word before the data segment is a jump or a store.
abbrev pub HasNoJumps : List ℕ → Type 0
HasNoJumps mem = (k : ℕ) → k < 2048 → may_go_back (decode (word_at mem k)) ≡ false

some_word : (mem : List ℕ) (i w : ℕ) → get_elem? mem i ≡ some w → word_at mem i ≡ w
some_word mem i w e = rw (e, word_at) refl

fetch-cases :
    (m : Machine)
    → m.pc < 8192
    → (fetch m ≡ returns (record m { ri = word_at m.mem (m.pc / 4); pc = m.pc + 4 }))
      ⊎ ((e : Fault) × (fetch m ≡ fault e))
unfolding fetch lw word check_address_range
fetch-cases m low =
    let same : u32 (m.pc + 0) ≡ m.pc = omega arith in
    let next : plus m.pc 4 ≡ m.pc + 4 = omega arith in
    let inside : ltb mem_size (m.pc / 4) ≡ false = ground arith in
    elim (Option-cases (get_elem? m.mem (m.pc / 4))) [
      | inl e ↦ inr (out_of_bounds, rw (same, inside, e, word) refl)
      | inr (w, e) ↦ inl (rw (same, inside, e, word, next, some_word m.mem (m.pc / 4) w e) refl)
    ]

step-Forward :
    (m : Machine)
    → m.pc < 8192
    → HasNoJumps m.mem
    → ((m' : Machine) × (step m ≡ returns m')
        × (m'.mem ≡ m.mem)
        × (m.pc + 4 ≤ m'.pc)
        × (m'.pc ≤ m.pc + 4 + 2 ^ 18))
      ⊎ ((e : Fault) × (step m ≡ fault e))
unfolding step decode
step-Forward m low safe = elim (fetch-cases m low) [
  | inl e ↦
      let w : ℕ = word_at m.mem (m.pc / 4) in
      let z : Machine = record m { ri = w; pc = m.pc + 4 } in
      let went =
        execute-Forward z (decode w) (safe (m.pc / 4) (omega arith)) (kte16-lt w) (omega arith) in
      elim (Gives-cases z (execute z (decode w)) went) [
        | inl (m', q, f) ↦ inl (m', rw e q, f.same_mem, f.above, f.near)
        | inr (x, q) ↦ inr (x, rw e q)
      ]
  | inr (x, e) ↦ inr (x, rw e refl)
]
  where
    kte16-lt : (w : ℕ) → (decode w).kte16 < 2 ^ 16
    kte16-lt w = omega arith

    Gives-cases :
        (z : Machine) (o : Outcome Machine)
        → Gives (Forward (2 ^ 18) z) o
        → ((m' : Machine) × (o ≡ returns m') × Forward (2 ^ 18) z m')
          ⊎ ((e : Fault) × (o ≡ fault e))
    Gives-cases z (returns m') f = inl (m', refl, f)
    Gives-cases z (fault x) f = inr (x, refl)

less_than-ltb : (a : ℕ) → a < 2 ^ 31 → less_than a Codes.data_segment_start ≡ ltb a 8192
less_than-ltb a h = ground arith

abbrev Ends : Outcome (Option Machine) → Type 0
Ends o = ((m' : Machine) × (o ≡ returns (some m')) × (8192 ≤ m'.pc)) ⊎ ((e : Fault) × (o ≡ fault e))

loop-at-end :
    (n : ℕ) (m : Machine) → m.pc < 2 ^ 30 → 8192 ≤ m.pc → loop (suc n) m ≡ returns (some m)
unfolding loop
loop-at-end n m low over =
    let stop : ltb m.pc 8192 ≡ false = ground arith in
    rw (less_than-ltb m.pc (omega arith), stop) refl

loop-before_end :
    (n : ℕ) (m : Machine) → m.pc < 8192 → loop (suc n) m ≡ (step m >>= λ m'. loop n m')
unfolding loop
loop-before_end n m low =
    let go : ltb m.pc 8192 ≡ true = ground arith in rw (less_than-ltb m.pc (omega arith), go) refl

-- Each step goes on by at least one word.
loop-Ends :
    (n : ℕ) (m : Machine)
    → m.pc < 2 ^ 30
    → 8192 ≤ m.pc + 4 * n
    → HasNoJumps m.mem
    → Ends (loop (suc n) m)
loop-Ends zero m low enough safe = inl (m, loop-at-end 0 m low (omega arith), omega arith)
loop-Ends (suc n) m low enough safe = elim (Bool-cases (ltb m.pc 8192)) [
  | inr stop ↦ inl (m, loop-at-end (suc n) m low (ground arith), ground arith)
  | inl go ↦
      let before : m.pc < 8192 = ground arith in
      elim (step-Forward m before safe) [
        | inl (m', e, same, above, near) ↦
            rw (loop-before_end (suc n) m before, e)
              (loop-Ends n m' (omega arith) (omega arith) (rw same safe))
        | inr (x, e) ↦ inr (x, rw (loop-before_end (suc n) m before, e) refl)
      ]
]

-- With no jump and no store before the data segment, `run` comes to an end within 2049 rounds of its
-- loop: with `pc` in the data segment or after it, or by a fault. So no branch makes a loop.
pub run-Ends :
    (m : Machine)
    → HasNoJumps m.mem
    → ((m' : Machine) × (run 2049 m ≡ returns (some m')) × (8192 ≤ m'.pc))
      ⊎ ((e : Fault) × (run 2049 m ≡ fault e))
unfolding run init
run-Ends m safe =
    loop-Ends 2048 (record m { pc = 0; ri = 0; hi = 0; lo = 0 }) (omega arith) (omega arith) safe
