-- ===== src/Bus/Action.antt =====
-- A falling edge keeps the bus valid, and only a slave can stop the program in it
-- (src/simple_bus.cpp, main_action and handle_request).
use simple_bus_mdu.Prelude.{
  ℕ, ◌%◌, ◌≡◌, refl, ◌⊎◌, inl, inr, true, false, Option, none, some, Outcome, returns, get_elem?,
  ◌==◌, ◌>>=◌, Bool-cases, Option-cases, arith,
}
use simple_bus_mdu.Types.{Request, wait, error, SlaveIf}
use simple_bus_mdu.Bus.Forms.{Bus, clear_locks}
use simple_bus_mdu.Bus.Slaves.{get_slave}
use simple_bus_mdu.Bus.Service.{
  transfer, reject, handle_request, handle_current, clear_if_idle, main_action,
}
use simple_bus_mdu.Bus.Requests.{Unique, Unique-unlock}
use simple_bus_mdu.Bus.Invariant.{
  IsReady, IsValid, SlaveFault, in_read, in_write, ReturnsValid, stored, pick-IsReady,
  transfer-IsValid,
}

module _ {S : Type 0} ⦃slave_if : SlaveIf S⦄ where
  reject-IsValid :
      (b : Bus S) (i : ℕ) {r : Request}
      → Unique b.requests
      → get_elem? b.requests i ≡ some r
      → IsValid (reject b i r).0
  reject-IsValid b i {r} u at = record {
    unique = (stored b.requests i (record r { status = error }) u at refl).0;
    waiting = tt;
  }

  -- An aligned address of a slave's: the slave is called.
  pub handle_request-served :
      (b : Bus S) (i : ℕ) {r : Request} {k : ℕ} {s : S}
      → get_elem? b.requests i ≡ some r
      → (r.address % 4 == 0) ≡ true
      → get_slave b.slave_port r.address ≡ some (k, s)
      → handle_request b i ≡ transfer b i (record r { status = wait }) k s
  unfolding handle_request
  handle_request-served b i at e f = ground arith

  -- Any other request is rejected.
  pub handle_request-misaligned :
      (b : Bus S) (i : ℕ) {r : Request}
      → get_elem? b.requests i ≡ some r
      → (r.address % 4 == 0) ≡ false
      → handle_request b i ≡ returns (reject b i r)
  unfolding handle_request
  handle_request-misaligned b i at e = ground arith

  pub handle_request-unmapped :
      (b : Bus S) (i : ℕ) {r : Request}
      → get_elem? b.requests i ≡ some r
      → get_slave b.slave_port r.address ≡ none
      → handle_request b i ≡ returns (reject b i r)
  unfolding handle_request
  handle_request-unmapped b i at e = ground arith

  handle_request-IsValid :
      (b : Bus S) (i : ℕ) {r : Request}
      → Unique b.requests
      → get_elem? b.requests i ≡ some r
      → b.current ≡ some i
      → ReturnsValid (handle_request b i) ⊎ SlaveFault slave_if (handle_request b i)
  handle_request-IsValid b i {r} u at c = elim (Bool-cases (r.address % 4 == 0)) [
    | inr e ↦ rejected (handle_request-misaligned b i at e)
    | inl e ↦ elim (Option-cases (get_slave b.slave_port r.address)) [
      | inl f ↦ rejected (handle_request-unmapped b i at f)
      | inr ((k, s), f) ↦
          let r' : Request = record r { status = wait } in
          rw (handle_request-served b i at e f) (transfer-IsValid b i r' r k s u at refl refl c)
    ]
  ]
    where
      rejected :
          handle_request b i ≡ returns (reject b i r)
          → ReturnsValid (handle_request b i) ⊎ SlaveFault slave_if (handle_request b i)
      rejected e = inl (record {
        after = (reject b i r).0;
        woken = none;
        computed = e;
        valid = reject-IsValid b i u at;
      })

  pub clear_if-none :
      (b : Bus S) (woken : Option ℕ)
      → b.current ≡ none
      → clear_if_idle (b, woken) ≡ (clear_locks b, woken)
  unfolding clear_if_idle
  clear_if-none b woken e = ground arith

  pub clear_if-some :
      (b : Bus S) (woken : Option ℕ) (i : ℕ)
      → b.current ≡ some i
      → clear_if_idle (b, woken) ≡ (b, woken)
  unfolding clear_if_idle
  clear_if-some b woken i e = ground arith

  clear_locks-IsValid : (b : Bus S) → IsValid b → b.current ≡ none → IsValid (clear_locks b)
  unfolding clear_locks
  clear_locks-IsValid b v e = record {
    unique = Unique-unlock b.requests v.unique;
    waiting = rw e tt;
  }

  pub handle-none : (b : Bus S) → b.current ≡ none → handle_current b ≡ returns (b, none)
  unfolding handle_current
  handle-none b e = ground arith

  pub handle-some : (b : Bus S) (i : ℕ) → b.current ≡ some i → handle_current b ≡ handle_request b i
  unfolding handle_current
  handle-some b i e = ground arith

  clear_if_idle-IsValid :
      (b : Bus S) (woken : Option ℕ) → IsValid b → IsValid (clear_if_idle (b, woken)).0
  clear_if_idle-IsValid b woken v = elim (Option-cases b.current) [
    | inl e ↦ rw (clear_if-none b woken e) (clear_locks-IsValid b v e)
    | inr (i, e) ↦ rw (clear_if-some b woken i e) v
  ]

  handle_current-IsValid :
      (b : Bus S) (c : Option ℕ)
      → b.current ≡ c
      → Unique b.requests
      → IsReady b.requests c
      → ReturnsValid (handle_current b) ⊎ SlaveFault slave_if (handle_current b)
  handle_current-IsValid b none e u ready = inl (record {
    after = b;
    woken = none;
    computed = handle-none b e;
    valid = record { unique = u; waiting = rw e tt };
  })
  handle_current-IsValid b (some i) e u (r, at, pending) =
      rw (handle-some b i e) (handle_request-IsValid b i u at e)

  -- The fault of a slave goes through what the bus does after its call.
  pub SlaveFault-bind :
      {A B : Type 0} (m : Outcome A) (f : A → Outcome B)
      → SlaveFault slave_if m
      → SlaveFault slave_if (m >>= f)
  SlaveFault-bind m f (in_read s d a e x y) = in_read s d a e x (rw y)
  SlaveFault-bind m f (in_write s d a e x y) = in_write s d a e x (rw y)

  -- At a falling edge a valid bus becomes a valid bus, unless a slave's own operation stops the
  -- program: the arbiter's assertion holds, and no missing request is read.
  pub main_action-IsValid :
      (b : Bus S) → IsValid b → ReturnsValid (main_action b) ⊎ SlaveFault slave_if (main_action b)
  unfolding main_action
  main_action-IsValid b v =
      let (b', picked, u, ready) = pick-IsReady b b.current refl v in
      elim (handle_current-IsValid b' b'.current refl u ready) [
        | inl h ↦ inl (record {
          after = (clear_if_idle (h.after, h.woken)).0;
          woken = h.woken;
          computed = rw (picked, h.computed);
          valid = clear_if_idle-IsValid h.after h.woken h.valid;
        })
        | inr x ↦ inr (rw picked (SlaveFault-bind (handle_current b') _ x))
      ]
