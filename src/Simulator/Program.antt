-- ===== src/Simulator/Program.antt =====
-- The simulator as a program: MipsCpp/main.cpp, and load_mem and the listings of MipsCpp/mips.cpp.
use simple_bus_mdu.Prelude.{
  ℕ, zero, suc, ◌+◌, ◌/◌, List, [], ◌∷◌, Option, none, some, Outcome, returns, length, replicate,
  leb, ◌==◌, ◌||◌, if◌then◌else◌, ◌>>=◌,
}
use simple_bus_mdu.Prelude.Int.{ℤ, pos, negsuc}
use simple_bus_mdu.MemMips.{fread_words}
use simple_bus_mdu.Simulator.Memory.{mem_size, lw}
use simple_bus_mdu.Simulator.{Machine}
use simple_bus_mdu.Simulator.Execute.{run, with_mem}

-- `load_mem`, for a file of whole words or none at all: -1, or the rounds of its loop, of which the
-- last finds the end of the file and reads nothing.
unfoldable pub load_mem : Machine → Option (List ℕ) → ℕ → Outcome (ℤ × Machine)
load_mem m none start = returns (negsuc 0, m)
load_mem m (some ws) start =
    fread_words m.mem (start / 4) ws >>= λ mem. returns (pos (suc (length ws)), with_mem m mem)

-- The lines of `dump_breg`, from register `i` on: the number of a register and what is in it.
unfoldable pub registers_from : ℕ → ℕ → Machine → List (ℕ × ℕ)
registers_from zero i m = []
registers_from (suc n) i m = (i, m.breg i) ∷ registers_from n (suc i) m

unfoldable pub dump_breg : Machine → List (ℕ × ℕ)
unfolding registers_from
dump_breg m = registers_from 32 0 m

-- The loops of `dump_mem`, for at most `n` words: an address and the word there. Their bounds are not
-- negative.
unfoldable pub dump_words : ℕ → Machine → ℕ → ℕ → Outcome (Option (List (ℕ × ℕ)))
dump_words zero m i end = returns none
dump_words (suc n) m i end =
    let rest = lw m.mem i 0 >>= λ w. dump_words n m (i + 4) end >>= λ lines.
    returns (elim lines [ none ↦ none | some ls ↦ some ((i, w) ∷ ls) ]) in
    if leb i end then rest else returns (some [])

-- `format` is a character: h or H, in base 16, d or D, in base 10. Any other lists nothing.
unfoldable pub dump_mem : ℕ → Machine → ℕ → ℕ → ℕ → Outcome (Option (List (ℕ × ℕ)))
unfolding dump_words
dump_mem n m start end format =
    if format == 104 || format == 72 || format == 100 || format == 68
    then dump_words n m start end
    else returns (some [])

-- The global variables before `main`.
abbrev pub start : List ℕ → Machine
start input = record {
  breg = λ i. 0;
  pc = 0;
  ri = 0;
  hi = 0;
  lo = 0;
  mem = replicate mem_size 0;
  input = input;
  output = [];
}

-- `main`, for at most `n` instructions: the registers at the end, if the program comes to an end.
unfoldable pub main :
    ℕ → List ℕ → Option (List ℕ) → Option (List ℕ) → Outcome (Option (List (ℕ × ℕ)))
unfolding load_mem run dump_breg
main n input code the_data = load_mem (start input) code 0 >>= λ (size, m1).
    load_mem m1 the_data 8192 >>= λ (size', m2).
    run n m2 >>= λ ended. returns (elim ended [ none ↦ none | some m ↦ some (dump_breg m) ])
