-- ===== src/Masters/NonBlockingRound.antt =====
-- What a round of the non-blocking master of the bus does to the memory of
-- simple_bus_headers/simple_bus_fast_mem.h: src/simple_bus_master_non_blocking.cpp.
use simple_bus_mdu.Prelude.{
  ℕ, ◌+◌, ◌%◌, ◌^◌, ◌<◌, ◌≡◌, refl, ap, ◌∙◌, true, false, some, returns, word_at, set, arith,
}
use simple_bus_mdu.Types.{u32, ok}
use simple_bus_mdu.Bus.Forms.{Bus, update, non_blocking}
use simple_bus_mdu.Bus.Slaves.{answers}
use simple_bus_mdu.Bus.Invariant.{IsValid}
use simple_bus_mdu.Bus.Quiet.{Quiet, asked}
use simple_bus_mdu.Bus.Timing.{read_called, write_called}
use simple_bus_mdu.Bus.Mounted.{Mounted}
use simple_bus_mdu.FastMem.{FastMem, index_of, fast_mem}
use simple_bus_mdu.FastMem.Laws.{IsWellFormed, Holds, index-lt, read-word_at, fast_mem-KeepsRange}
use simple_bus_mdu.FastMem.BurstWrites.{write-at}
use simple_bus_mdu.Masters.Polling.{Polled, non_blocking-Polled}
use simple_bus_mdu.Masters.Rounds.{non_blocking_round}

-- The memory with `cnt` added to the word at the address `a`.
abbrev pub added_at : FastMem → ℕ → ℕ → FastMem
added_at m a cnt = record m {
  mem = set m.mem (index_of m a) (u32 (word_at m.mem (index_of m a) + cnt));
}

module _ (b : Bus FastMem) (k : ℕ) (m : FastMem) (p a fuel : ℕ) (valid : IsValid b)
    (quiet : Quiet b) (mounted : Mounted b.slave_port k m) (well : IsWellFormed m)
    (held : Holds m a) (aligned : a % 4 ≡ 0) (small : a + 4 < 2 ^ 32) (enough : 1 < fuel) where
  hit : answers m a ≡ true
  hit = ground (arith, held)

  read-Polled :
      Polled p k fuel m
        (non_blocking false b p 0 a false)
        (update b.cells 0 (word_at m.mem (index_of m a)))
  read-Polled =
      let w : ℕ = word_at m.mem (index_of m a) in
      non_blocking-Polled fast_mem-KeepsRange false b p 0 a k fuel m m (update b.cells 0 w) valid
        quiet mounted aligned small hit
        (λ b1 same.
          read_called b1 (asked false p 0 a 1) k m m ok w refl
            (read-word_at m (b1.cells 0) a well held)
          ∙ ap (λ c. returns (ok, set b1.slave_port k m, update c 0 w)) same)
        (refl, refl) refl enough

  write-Polled :
      (d : ℕ)
      → b.cells 0 ≡ d
      → Polled p k fuel
          (record m { mem = set m.mem (index_of m a) d })
          (non_blocking true b p 0 a false)
          b.cells
  write-Polled d e =
      let m' : FastMem = record m { mem = set m.mem (index_of m a) d } in
      non_blocking-Polled fast_mem-KeepsRange true b p 0 a k fuel m m' b.cells valid quiet mounted
        aligned small hit
        (λ b1 same.
          write_called b1 (asked true p 0 a 1) k m m' ok refl (
            ap (λ c. fast_mem.write m c a) (ap (λ f. f 0) same ∙ e)
            ∙ write-at m d a (index_of m a) refl (index-lt m a well held))
          ∙ ap (λ c. returns (ok, set b1.slave_port k m', c)) same)
        (refl, refl) refl enough

-- The non-blocking master without a lock, alone on a quiet and valid bus with a well-formed memory that
-- holds its address, a multiple of 4 below the end of the address space, and asked for the status at most
-- `fuel` times for each call, `fuel` above 1: a round of its loop comes to an end, and leaves the bus quiet
-- and valid. To the word at the address `cnt` has been added, modulo 2 ^ 32, and the rest of the memory is
-- as before.
pub non_blocking_round-added :
    (b : Bus FastMem) (k : ℕ) (m : FastMem) (p a cnt fuel : ℕ)
    → IsValid b
    → Quiet b
    → Mounted b.slave_port k m
    → IsWellFormed m
    → Holds m a
    → a % 4 ≡ 0
    → a + 4 < 2 ^ 32
    → 1 < fuel
    → (b' : Bus FastMem) × (non_blocking_round fuel b p a cnt false ≡ returns (some b'))
      × IsValid b'
      × Quiet b'
      × Mounted b'.slave_port k (added_at m a cnt)
unfolding non_blocking_round
non_blocking_round-added b k m p a cnt fuel valid quiet mounted well held aligned small enough =
    let got = read-Polled b k m p a fuel valid quiet mounted well held aligned small enough in
    let b2 : Bus FastMem = got.after in
    let b3 : Bus FastMem = record b2 { cells = update b2.cells 0 (u32 (b2.cells 0 + cnt)) } in
    let valid3 : IsValid b3 = record { unique = got.valid.unique; waiting = got.valid.waiting } in
    let quiet3 : Quiet b3 = record {
      current = got.quiet.current;
      none_pending = got.quiet.none_pending;
      no_locks = got.quiet.no_locks;
    } in
    let put =
      write-Polled b3 k m p a fuel valid3 quiet3 got.mounted well held aligned small enough
        (u32 (word_at m.mem (index_of m a) + cnt)) (ap (λ c. u32 (c 0 + cnt)) got.stored) in
    (
      put.after,
      rw (got.called, got.computed, put.called) put.computed,
      put.valid,
      put.quiet,
      put.mounted,
    )
