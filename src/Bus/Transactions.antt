-- ===== src/Bus/Transactions.antt =====
-- Whole calls of burst_read and burst_write, of one word, by the only thread of the program:
-- src/simple_bus.cpp.
use simple_bus_mdu.Prelude.{
  ℕ, suc, ◌+◌, ◌%◌, ◌^◌, ◌≤◌, ◌<◌, ◌≡◌, ◌≢◌, refl, Bool, true, false, Option, none, some, Outcome,
  returns, get_elem?, ◌==◌, arith,
}
use simple_bus_mdu.Types.{Request, Status, ok, u32, SlaveIf, KeepsRange}
use simple_bus_mdu.Bus.Forms.{Bus, update, burst, last_address}
use simple_bus_mdu.Bus.Slaves.{answers}
use simple_bus_mdu.Bus.Mounted.{SameRange, Mounted}
use simple_bus_mdu.Bus.Blocking.{await, status_of, blocking}
use simple_bus_mdu.Bus.Timing.{CountsDown, Finished}
use simple_bus_mdu.Bus.Calls.{read_takes, write_takes}
use simple_bus_mdu.Bus.Quiet.{Quiet, Resting-Quiet, asked, burst-Serving}

ends_at_once : (a : ℕ) → a + 4 < 2 ^ 32 → last_address a 1 < u32 (a + 4)
ends_at_once a h = omega arith

module _ {S : Type 0} ⦃slave_if : SlaveIf S⦄ where
  pub status_of-some :
      (i : ℕ) (b : Bus S) {r : Request}
      → get_elem? b.requests i ≡ some r
      → status_of i (some b) ≡ returns (some (r.status, b))
  unfolding status_of
  status_of-some i b e = ground arith

  -- The call came back with the status OK, and with the bus quiet again.
  pub record Completed (call : Outcome (Option (Status × Bus S))) (k : ℕ) (s : S) (cells : ℕ → ℕ)
      : Type 0 where
    pub after : Bus S
    pub computed : call ≡ returns (some (ok, after))
    pub quiet : Quiet after
    pub mounted : Mounted after.slave_port k s
    pub stored : after.cells ≡ cells

  -- The thread waits yet.
  abbrev pub StillWaits : Outcome (Option (Status × Bus S)) → Type 0
  StillWaits call = call ≡ returns none

  blocking-Completed :
      (do_write : Bool) (fuel : ℕ) (b : Bus S) (p at a : ℕ) (k : ℕ) (s : S) (r : Request)
      (cells : ℕ → ℕ)
      → Finished fuel
          (burst do_write b p at a 1 false).0
          (burst do_write b p at a 1 false).1
          k
          s
          r
          cells
      → Completed (blocking do_write fuel b p at a 1 false) k s cells
  blocking-Completed do_write fuel b p at a k s r cells f = record {
    after = f.after;
    computed =
        unfold blocking in
        rw f.computed (status_of-some (burst do_write b p at a 1 false).0 f.after f.resting.at);
    quiet = Resting-Quiet f.after (burst do_write b p at a 1 false).0 f.resting refl;
    mounted = f.mounted;
    stored = f.stored;
  }

  pub blocking-StillWaits :
      (do_write : Bool) (fuel : ℕ) (b : Bus S) (p at a : ℕ)
      → await fuel (burst do_write b p at a 1 false).0 (burst do_write b p at a 1 false).1
        ≡ returns none
      → StillWaits (blocking do_write fuel b p at a 1 false)
  blocking-StillWaits do_write fuel b p at a f = unfold blocking status_of in rw f

  module _ (keeps : KeepsRange slave_if) (b : Bus S) (p at a k : ℕ) (s : S) (quiet : Quiet b)
      (mounted : Mounted b.slave_port k s) (aligned : (a % 4 == 0) ≡ true)
      (hit : answers s a ≡ true) (small : a + 4 < 2 ^ 32) where
    -- A read from a slave that counts down `n` cycles, `n` at least 1, takes `n + 1` of them.
    pub burst_read-Completed :
        (n value : ℕ)
        → n ≢ 0
        → CountsDown s a n value
        → (fuel : ℕ)
        → (n < fuel
            → Completed (blocking false fuel b p at a 1 false) k s (update b.cells at value))
          × (fuel ≤ n → StillWaits (blocking false fuel b p at a 1 false))
    burst_read-Completed n value positive counts fuel =
        let (i, b') = burst false b p at a 1 false in
        let (serving, slaves, cells) = burst-Serving false b p at a 1 quiet in
        let takes =
          read_takes keeps i k s a n value aligned hit counts b' (asked false p at a 1) positive
            serving refl refl (ends_at_once a small) (rw slaves mounted) fuel in
        (
          λ h. rw cells at (
              blocking-Completed false fuel b p at a k s (asked false p at a 1)
                (update b'.cells at value) (takes.0 h)),
          λ h. blocking-StillWaits false fuel b p at a (takes.1 h),
        )

    -- A read of one word, at an aligned address whose word is not the last of the address space, from a
    -- slave mounted there with `n` wait states, `n` at least 1, by the only thread on a quiet bus,
    -- takes exactly `n + 1` cycles: given more than `n`, it comes back with OK, the
    -- slave's value in the master's cell, every other cell as before, the slave at rest and the bus
    -- quiet; given `n` or fewer, the thread still waits.
    pub burst_read-takes :
        (n value : ℕ)
        → n ≢ 0
        → CountsDown s a n value
        → (fuel early : ℕ) → n < fuel
        → early ≤ n
        → Completed (blocking false fuel b p at a 1 false) k s (update b.cells at value)
          × StillWaits (blocking false early b p at a 1 false)
    burst_read-takes n value positive counts fuel early enough short = (
      (burst_read-Completed n value positive counts fuel).0 enough,
      (burst_read-Completed n value positive counts early).1 short,
    )

    -- A write to a slave that takes it at once takes one cycle.
    pub burst_write-Completed :
        (s' : S) (fuel : ℕ)
        → slave_if.write s (b.cells at) a ≡ returns (ok, s')
        → SameRange s s'
        → Completed (blocking true (suc fuel) b p at a 1 false) k (slave_if.posedge s') b.cells
    burst_write-Completed s' fuel e same =
        let (i, b') = burst true b p at a 1 false in
        let (serving, slaves, cells) = burst-Serving true b p at a 1 quiet in
        rw cells at (
          blocking-Completed true (suc fuel) b p at a k (slave_if.posedge s') (asked true p at a 1)
            b'.cells
            (write_takes keeps i k b' (asked true p at a 1) s s' fuel aligned hit serving refl
              (ends_at_once a small) (rw slaves mounted) (rw cells e) same))
