-- ===== src/Mdu/Timing.antt =====
-- The wait states of the unit, include/mdu.h: how its `read` and `write` answer the bus from one
-- edge of the clock to the next.
use simple_bus_mdu.Prelude.{ℕ, suc, ◌≡◌, refl, ◌∙◌, List, [], ◌∷◌, Outcome, returns, ◌>>=◌}
use simple_bus_mdu.Prelude.Int.{pos, negsuc}
use simple_bus_mdu.Types.{ok, KeepsRange}
use simple_bus_mdu.Bus.Timing.{CountsDown}
use simple_bus_mdu.Mdu.Const
use simple_bus_mdu.Mdu.{
  Mdu, update_wait_left, calculate, store, read, write, read_at, write_at, mdu,
}

-- The unit when no operation is under way: its registers and its number of wait states.
abbrev pub idle : ℕ → ℕ → ℕ → Mdu
idle a b n = record { op_a = a; op_b = b; wait_states = pos n; wait_left = negsuc 0 }

-- The unit `k` cycles before the end of an operation.
abbrev pub working : ℕ → ℕ → ℕ → ℕ → Mdu
working a b n k = record { op_a = a; op_b = b; wait_states = pos n; wait_left = pos k }

-- The unit answers at the same addresses all its life.
pub mdu-KeepsRange : KeepsRange mdu
mdu-KeepsRange = record {
  read_start = λ s d a e. refl;
  read_end = λ s d a e. refl;
  write_start = λ s d a e. refl;
  write_end = λ s d a e. refl;
  posedge_start = λ s. refl;
  posedge_end = λ s. refl;
}

pub calculate-working :
    (a b n k address : ℕ) → calculate (working a b n k) address ≡ calculate (idle a b n) address
unfolding calculate
calculate-working a b n k address = refl

read-working :
    (a b n d address : ℕ) {v : ℕ}
    → calculate (idle a b n) address ≡ returns v
    → read (working a b n 0) d address ≡ returns (ok, v, working a b n 0)
unfolding read read_at
read-working a b n d address e = rw (calculate-working a b n 0 address ∙ e)

-- A read makes the unit busy for its wait states and then gives the result; the registers stay.
pub idle-CountsDown :
    (a b n address : ℕ) {v : ℕ}
    → calculate (idle a b n) address ≡ returns v
    → CountsDown (idle a b n) address n v
idle-CountsDown a b n address {v} e = record {
  busy = λ k. working a b n k;
  starts = λ d. unfold read read_at in refl;
  holds = λ d k. unfold read read_at in refl;
  ticks = λ k. refl;
  ends = λ d. read-working a b n d address e;
  rests = refl;
  range = λ k. (refl, refl);
}

-- A write in a register is taken at once when no operation is under way.
pub write-op_a : (a b n d : ℕ) → write (idle a b n) d Const.op_a ≡ returns (ok, idle d b n)
unfolding write write_at store
write-op_a a b n d = refl

pub write-op_b : (a b n d : ℕ) → write (idle a b n) d Const.op_b ≡ returns (ok, idle a d n)
unfolding write write_at store
write-op_b a b n d = refl

-- What the environment does to the unit: a rising edge, or a call of the bus.
pub data Event : Type 0 where
  edge : Event
  reads : ℕ → ℕ → Event
  writes : ℕ → ℕ → Event

unfoldable pub step : Mdu → Event → Outcome Mdu
step m edge = returns (update_wait_left m)
step m (reads d address) = read m d address >>= λ (st, d', m'). returns m'
step m (writes d address) = write m d address >>= λ (st, m'). returns m'

unfoldable pub run : Mdu → List Event → Outcome Mdu
run m [] = returns m
run m (e ∷ es) = step m e >>= λ m'. run m' es

abbrev pub edges : List Event → ℕ
edges [] = 0
edges (edge ∷ es) = suc (edges es)
edges (reads d address ∷ es) = edges es
edges (writes d address ∷ es) = edges es

-- Every operation of these operands has a result.
abbrev pub NeverFaults : ℕ → ℕ → ℕ → Type 0
NeverFaults a b n = (address : ℕ) → (v : ℕ) × (calculate (idle a b n) address ≡ returns v)
