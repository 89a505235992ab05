-- ===== src/SlowMem/Reads.antt =====
-- The memory of simple_bus_headers/simple_bus_slow_mem.h behind src/simple_bus.cpp.
use simple_bus_mdu.Prelude.{
  ℕ, zero, suc, ◌+◌, ◌%◌, ◌^◌, ◌≤◌, ◌<◌, ◌≡◌, ◌≢◌, refl, true, false, List, some, get_elem?, ◌==◌,
  returns, arith,
}
use simple_bus_mdu.Prelude.Int.{ℤ, pos, negsuc}
use simple_bus_mdu.Types.{Status, KeepsRange}
use simple_bus_mdu.Bus.Forms.{Bus, update}
use simple_bus_mdu.Bus.Slaves.{answers}
use simple_bus_mdu.Bus.Mounted.{Mounted, SameRange}
use simple_bus_mdu.Bus.Blocking.{blocking}
use simple_bus_mdu.Bus.Quiet.{Quiet}
use simple_bus_mdu.Bus.Transactions.{Completed, StillWaits, burst_read-takes}
use simple_bus_mdu.Bus.Hangs.{burst_read_lapses}
use simple_bus_mdu.SlowMem.{
  SlowMem, index_of, load, store, read, read_at, write, write_at, slow_mem,
}
use simple_bus_mdu.SlowMem.Timing.{idle, working, idle-CountsDown}

read_at-SameRange :
    (c : ℤ) (s : SlowMem) (d a : ℕ) {st : Status} {d' : ℕ} {s' : SlowMem}
    → read_at c s d a ≡ returns (st, d', s')
    → SameRange s s'
unfolding read_at load
read_at-SameRange (negsuc n) s d a e = ground arith
read_at-SameRange (pos zero) s d a e = ground arith
read_at-SameRange (pos (suc n)) s d a e = ground arith

write_at-SameRange :
    (c : ℤ) (s : SlowMem) (d a : ℕ) {st : Status} {s' : SlowMem}
    → write_at c s d a ≡ returns (st, s')
    → SameRange s s'
unfolding write_at store
write_at-SameRange (negsuc n) s d a e = ground arith
write_at-SameRange (pos zero) s d a e = ground arith
write_at-SameRange (pos (suc n)) s d a e = ground arith

pub slow_mem-KeepsRange : KeepsRange slow_mem
unfolding read write
slow_mem-KeepsRange = record {
  read_start = λ s d a e. (read_at-SameRange s.m_wait_count s d a e).0;
  read_end = λ s d a e. (read_at-SameRange s.m_wait_count s d a e).1;
  write_start = λ s d a e. (write_at-SameRange s.m_wait_count s d a e).0;
  write_end = λ s d a e. (write_at-SameRange s.m_wait_count s d a e).1;
  posedge_start = λ s. refl;
  posedge_end = λ s. refl;
}

module _ (b : Bus SlowMem) (k start finish n p at a : ℕ) (words : List ℕ) (quiet : Quiet b)
    (mounted : Mounted b.slave_port k (idle words start finish n)) (aligned : (a % 4 == 0) ≡ true)
    (hit : answers (idle words start finish n) a ≡ true) where
  -- A read of a word that the memory holds, at an aligned address below the end of the address space
  -- and on a quiet bus, takes exactly as many cycles as the memory has wait states and one more, if it
  -- has at least 1 and fewer than 2^31: given that many the word is in the master's cell, given fewer
  -- the thread still waits.
  pub burst_read-word :
      (fuel early : ℕ) {w : ℕ}
      → get_elem? words (index_of (idle words start finish n) a) ≡ some w
      → a + 4 < 2 ^ 32
      → n ≢ 0
      → n < 2 ^ 31
      → n < fuel
      → early ≤ n
      → Completed
          (blocking false fuel b p at a 1 false)
          k
          (idle words start finish n)
          (update b.cells at w)
        × StillWaits (blocking false early b p at a 1 false)
  burst_read-word fuel early {w} e small positive int enough short =
      burst_read-takes slow_mem-KeepsRange b p at a k (idle words start finish n) quiet mounted
        aligned hit small n w positive (idle-CountsDown words start finish n a int e) fuel early
        enough short

-- With no wait states a read on a quiet bus still waits however many cycles pass.
pub burst_read_hasty_lapses :
    (fuel : ℕ) (b : Bus SlowMem) (k start finish p at a : ℕ) (words : List ℕ)
    → Quiet b
    → Mounted b.slave_port k (idle words start finish 0)
    → (a % 4 == 0) ≡ true
    → answers (idle words start finish 0) a ≡ true
    → StillWaits (blocking false fuel b p at a 1 false)
unfolding read read_at
burst_read_hasty_lapses fuel b k start finish p at a words quiet mounted aligned hit =
    burst_read_lapses slow_mem-KeepsRange k (idle words start finish 0)
      (working words start finish 0 0) a (λ d. refl) (refl, refl) refl aligned hit fuel b p at quiet
      mounted
