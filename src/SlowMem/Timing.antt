-- ===== src/SlowMem/Timing.antt =====
-- The wait states of simple_bus_headers/simple_bus_slow_mem.h, as the bus meets them.
use simple_bus_mdu.Prelude.{ℕ, ◌^◌, ◌<◌, ◌≡◌, refl, ap, returns, some, List, get_elem?, arith}
use simple_bus_mdu.Prelude.Int.{ℤ, pos, negsuc}
use simple_bus_mdu.Word.{signed32}
use simple_bus_mdu.Types.{ok, wait}
use simple_bus_mdu.Bus.Timing.{CountsDown}
use simple_bus_mdu.SlowMem.{SlowMem, index_of, load, read, read_at, slow_mem}

-- The memory with no call under way, and with `k` cycles of one left.
abbrev pub idle : List ℕ → ℕ → ℕ → ℕ → SlowMem
idle words start finish n = record {
  mem = words;
  m_start_address = start;
  m_end_address = finish;
  m_nr_wait_states = n;
  m_wait_count = negsuc 0;
}

abbrev pub working : List ℕ → ℕ → ℕ → ℕ → ℕ → SlowMem
working words start finish n k = record {
  mem = words;
  m_start_address = start;
  m_end_address = finish;
  m_nr_wait_states = n;
  m_wait_count = pos k;
}

signed32-small : (n : ℕ) → n < 2 ^ 31 → signed32 n ≡ pos n
signed32-small n h = ground arith

read-working :
    (words : List ℕ) (start finish n d address : ℕ) {w : ℕ}
    → get_elem? words (index_of (idle words start finish n) address) ≡ some w
    → read (working words start finish n 0) d address
      ≡ returns (ok, w, working words start finish n 0)
unfolding read read_at load
read-working words start finish n d address e = ground arith

read-idle :
    (words : List ℕ) (start finish n d address : ℕ)
    → n < 2 ^ 31
    → read (idle words start finish n) d address ≡ returns (wait, d, working words start finish n n)
unfolding read read_at
read-idle words start finish n d address h =
    ap (λ (c : ℤ). returns (wait, d, record (idle words start finish n) { m_wait_count = c }))
      (signed32-small n h)

-- A word of the memory is read in as many wait states as it was built with.
pub idle-CountsDown :
    (words : List ℕ) (start finish n address : ℕ) {w : ℕ}
    → n < 2 ^ 31
    → get_elem? words (index_of (idle words start finish n) address) ≡ some w
    → CountsDown (idle words start finish n) address n w
idle-CountsDown words start finish n address h e = record {
  busy = λ k. working words start finish n k;
  starts = λ d. read-idle words start finish n d address h;
  holds = λ d k. unfold read read_at in refl;
  ticks = λ k. refl;
  ends = λ d. read-working words start finish n d address e;
  rests = refl;
  range = λ k. (refl, refl);
}
