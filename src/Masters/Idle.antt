-- ===== src/Masters/Idle.antt =====
-- What a call of a thread does to the requests of the others: src/simple_bus.cpp (read, write, get_status,
-- burst_read, burst_write), called by the masters of Masters/Threads.
use simple_bus_mdu.Prelude.{
  ℕ, ◌≡◌, ◌≢◌, refl, sym, subst, ◌∙◌, ◌⊎◌, inl, inr, Bool, true, false, Option, none, some, List,
  Outcome, returns, All-set, ◌==◌, if◌then◌else◌, Bool-cases, ==→eq, arith,
}
use simple_bus_mdu.Types.{Request, SlaveIf}
use simple_bus_mdu.Bus.Forms.{
  Bus, get_request, fill, burst, non_blocking, get_status, is_finished, last_address,
}
use simple_bus_mdu.Bus.Requests.{Unique, get_request-Found, get_request-priority}
use simple_bus_mdu.Bus.Invariant.{IsValid}
use simple_bus_mdu.Bus.NonBlocking.{fill-IsValid, get_status-IsValid}
use simple_bus_mdu.Bus.Done.{Done, DoneIf, get_request-Done, get_request-finished, finished-Done}
use simple_bus_mdu.Bus.Finishing.{WokenDone}
use simple_bus_mdu.Masters.Threads.{
  Mode, running, blocked, notified, polling, Threads, is_running, switch, notify, resume, wake,
}

-- A thread that is outside of its calls has no request under way.
abbrev pub is_idle : Mode → Bool
is_idle running = true
is_idle notified = true
is_idle blocked = false
is_idle polling = false

-- Who is idle once the thread `p` is in the mode `m`.
pub switch-idle :
    (mode : ℕ → Mode) (p : ℕ) (m : Mode) (t : ℕ)
    → is_idle (switch mode p m t) ≡ true
    → ((t ≡ p) × (is_idle m ≡ true)) ⊎ ((t ≢ p) × (is_idle (mode t) ≡ true))
switch-idle mode p m t idle = elim (Bool-cases (t == p)) [
  | inl e ↦ inl (==→eq t p e, rw (e, switch) at idle)
  | inr e ↦ inr (λ same. absurd (ground arith), rw (e, switch) at idle)
]

pub running-idle : (m : Mode) → is_running m ≡ true → is_idle m ≡ true
running-idle running e = refl
running-idle notified e = refl
running-idle blocked e = absurd cc
running-idle polling e = absurd cc

pub resume-idle : (m : Mode) → is_idle (resume m) ≡ true → is_idle m ≡ true
resume-idle running e = refl
resume-idle notified e = refl
resume-idle blocked e = e
resume-idle polling e = e

-- Who is idle once a thread is woken was so, or has its form finished.
pub wake-idle :
    (rs : List Request) (woken : Option ℕ) (mode : ℕ → Mode) (t : ℕ)
    → Unique rs
    → WokenDone rs woken
    → is_idle (wake rs woken mode t) ≡ true
    → (is_idle (mode t) ≡ true) ⊎ Done t rs
unfolding wake
wake-idle rs none mode t u done idle = inl idle
wake-idle rs (some i) mode t u (v, at, finished) idle =
    elim (switch-idle mode v.priority (notify (mode v.priority)) t (rw (at, wake) at idle)) [
      | inl (same, at_rest) ↦ inr (rw same (finished-Done rs i u at finished))
      | inr (apart, at_rest) ↦ inl at_rest
    ]

pub returned :
    {A B : Type 0} (m : Outcome (A × B)) {x x' : A} {y y' : B}
    → m ≡ returns (x, y)
    → m ≡ returns (x', y')
    → x ≡ x'
returned m e f = cc

module _ {S : Type 0} ⦃slave_if : SlaveIf S⦄ where
  pub record IsSafe (s : Threads S) : Type 0 where
    pub valid : IsValid s.bus
    pub idle_done : (t : ℕ) → is_idle (s.mode t) ≡ true → Done t s.bus.requests

  fill-Done :
      (b : Bus S) (do_write : Bool) (p at first last : ℕ) (lock : Bool) (t : ℕ)
      → t ≢ p
      → Done t b.requests
      → Done t (fill b do_write p at first last lock).1.requests
  unfolding fill
  fill-Done b do_write p at first last lock t apart d =
      All-set (DoneIf t) (get_request b.requests p).2 (get_request b.requests p).0 _
        (get_request-Done t p b.requests d)
        (λ e. absurd (apart (sym e ∙ get_request-priority b.requests p)))

  -- The thread `p` goes on to a mode in which it is not idle; the others stay.
  busy-IsSafe :
      (s : Threads S) (p : ℕ) (b : Bus S) (m : Mode)
      → IsSafe s
      → is_idle m ≡ false
      → IsValid b
      → ((t : ℕ) → t ≢ p → Done t s.bus.requests → Done t b.requests)
      → IsSafe (record { bus = b; mode = switch s.mode p m })
  busy-IsSafe s p b m safe busy v keeps = record {
    valid = v;
    idle_done = λ t idle. elim (switch-idle s.mode p m t idle) [
      | inl (e, at_rest) ↦ absurd cc
      | inr (apart, at_rest) ↦ keeps t apart (safe.idle_done t at_rest)
    ];
  }

  pub calls-IsSafe :
      (s : Threads S) (t : ℕ) (do_write : Bool) (at address length : ℕ) (lock : Bool)
      → s.mode t ≡ running
      → IsSafe s
      → IsSafe (record {
        bus = (burst do_write s.bus t at address length lock).1;
        mode = switch s.mode t blocked;
      })
  unfolding burst
  calls-IsSafe s t do_write at address length lock free safe =
      let last : ℕ = last_address address length in
      let done = safe.idle_done t (rw free refl) in
      busy-IsSafe s t (fill s.bus do_write t at address last lock).1 blocked safe refl
        (fill-IsValid s.bus do_write t at address last lock safe.valid
          (get_request-finished t s.bus.requests done))
        (fill-Done s.bus do_write t at address last lock)

  pub asks-IsSafe :
      (s : Threads S) (t : ℕ) (do_write : Bool) (at address : ℕ) (lock : Bool) (b : Bus S)
      → s.mode t ≡ running
      → non_blocking do_write s.bus t at address lock ≡ returns b
      → IsSafe s
      → IsSafe (record { bus = b; mode = switch s.mode t polling })
  unfolding non_blocking
  asks-IsSafe s t do_write at address lock b free e safe =
      let finished = get_request-finished t s.bus.requests (safe.idle_done t (rw free refl)) in
      let filled : Bus S = (fill s.bus do_write t at address address lock).1 in
      let same : filled ≡ b = returns_eq (rw finished at e) in
      rw (sym same) (
        busy-IsSafe s t filled polling safe refl
          (fill-IsValid s.bus do_write t at address address lock safe.valid finished)
          (fill-Done s.bus do_write t at address address lock))
    where
      returns_eq : {x y : Bus S} → returns x ≡ returns y → x ≡ y
      returns_eq q = cc

  pub polls-IsSafe :
      (s : Threads S) (t : ℕ)
      → s.mode t ≡ polling
      → IsSafe s
      → IsSafe (record {
        bus = (get_status s.bus t).1;
        mode = switch s.mode t (if is_finished (get_status s.bus t).0 then running else polling);
      })
  unfolding get_status
  polls-IsSafe s t waits safe =
      let rs : List Request = s.bus.requests in
      let found = get_request-Found rs t safe.valid.unique in
      elim (Bool-cases (is_finished (get_request rs t).1.status)) [
        | inr e ↦ rw e (
            busy-IsSafe s t (get_status s.bus t).1 polling safe refl
              (get_status-IsValid s.bus t safe.valid) (λ u apart d. get_request-Done u t rs d))
        | inl e ↦
            let form : Done t (get_request rs t).2 =
              subst (λ x. Done x (get_request rs t).2) found.of_priority
                (finished-Done (get_request rs t).2 (get_request rs t).0 found.still_unique
                  found.in_place e) in
            rw e (record {
              valid = get_status-IsValid s.bus t safe.valid;
              idle_done = λ u idle. elim (switch-idle s.mode t running u idle) [
                | inl (same, at_rest) ↦ rw same form
                | inr (apart, at_rest) ↦ get_request-Done u t rs (safe.idle_done u at_rest)
              ];
            })
      ]
