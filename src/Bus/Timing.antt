-- ===== src/Bus/Timing.antt =====
-- How long a blocking call of one word takes, by what its slave does: src/simple_bus.cpp,
-- burst_read and burst_write, with wait states as the slaves of this repository count them.
use mathlib.Core.Path.{fun_ext}
use simple_bus_mdu.Prelude.{ℕ, suc, ◌≡◌, true, false, none, some, returns, set, arith}
use simple_bus_mdu.Types.{Request, Status, ok, wait, SlaveIf}
use simple_bus_mdu.Bus.Forms.{Bus, update}
use simple_bus_mdu.Bus.Service.{call_slave, main_action}
use simple_bus_mdu.Bus.Sole.{Serving, Resting}
use simple_bus_mdu.Bus.Edge.{next_word}
use simple_bus_mdu.Bus.Mounted.{SameRange, Mounted}
use simple_bus_mdu.Bus.Blocking.{posedge, await}

pub update_same : (f : ℕ → ℕ) (k : ℕ) → update f k (f k) ≡ f
update_same f k = fun_ext λ j. same j
  where
    same : (j : ℕ) → update f k (f k) j ≡ f j
    same j = ground arith

module _ {S : Type 0} ⦃slave_if : SlaveIf S⦄ where
  pub await-on :
      (fuel i : ℕ) (b : Bus S) {b' : Bus S}
      → main_action b ≡ returns (b', none)
      → await (suc fuel) i b ≡ await fuel i (posedge b')
  unfolding await
  await-on fuel i b e = rw e

  pub await-woken :
      (fuel i : ℕ) (b : Bus S) {b' : Bus S}
      → main_action b ≡ returns (b', some i)
      → await (suc fuel) i b ≡ returns (some (posedge b'))
  unfolding await
  await-woken fuel i b e = rw e (ground arith)

  pub Serving-posedge : (b : Bus S) (i : ℕ) {r : Request} → Serving b i r → Serving (posedge b) i r
  Serving-posedge b i s = record {
    current = s.current;
    at = s.at;
    others = s.others;
    is_due = s.is_due;
    unlocked = s.unlocked;
    no_locks = s.no_locks;
  }

  pub Resting-posedge : (b : Bus S) (i : ℕ) {r : Request} → Resting b i r → Resting (posedge b) i r
  Resting-posedge b i s = record {
    current = s.current;
    at = s.at;
    others = s.others;
    unlocked = s.unlocked;
    no_locks = s.no_locks;
  }

  -- A slave that takes its time: a read at the address `a` makes it busy for `n` cycles, after
  -- which a read gives `value` and the slave is as it was.
  pub record CountsDown (s : S) (a n value : ℕ) : Type 0 where
    pub busy : ℕ → S
    pub starts : (d : ℕ) → slave_if.read s d a ≡ returns (wait, d, busy n)
    pub holds : (d k : ℕ) → slave_if.read (busy (suc k)) d a ≡ returns (wait, d, busy (suc k))
    pub ticks : (k : ℕ) → slave_if.posedge (busy (suc k)) ≡ busy k
    pub ends : (d : ℕ) → slave_if.read (busy 0) d a ≡ returns (ok, value, busy 0)
    pub rests : slave_if.posedge (busy 0) ≡ s
    pub range : (k : ℕ) → SameRange s (busy k)

  -- The call of the thread has come back with this bus.
  pub record Finished (fuel i : ℕ) (b : Bus S) (k : ℕ) (s : S) (r : Request) (cells : ℕ → ℕ)
      : Type 0 where
    pub after : Bus S
    pub computed : await fuel i b ≡ returns (some after)
    pub resting : Resting after i (next_word r ok)
    pub mounted : Mounted after.slave_port k s
    pub stored : after.cells ≡ cells

  pub read_called :
      (b : Bus S) (r : Request) (k : ℕ) (s s' : S) (st : Status) (v : ℕ)
      → r.do_write ≡ false
      → slave_if.read s (b.cells r.data_at) r.address ≡ returns (st, v, s')
      → call_slave b r k s ≡ returns (st, set b.slave_port k s', update b.cells r.data_at v)
  unfolding call_slave
  read_called b r k s s' st v w e = rw (w, e)

  pub write_called :
      (b : Bus S) (r : Request) (k : ℕ) (s s' : S) (st : Status)
      → r.do_write ≡ true
      → slave_if.write s (b.cells r.data_at) r.address ≡ returns (st, s')
      → call_slave b r k s ≡ returns (st, set b.slave_port k s', b.cells)
  unfolding call_slave
  write_called b r k s s' st w e = rw (w, e)
