-- ===== src/Bus/Quiet.antt =====
-- A bus with nothing to do, as the only thread of a program finds it before each call and leaves it
-- after: src/simple_bus.cpp, burst_read and burst_write.
use simple_bus_mdu.Prelude.{
  ℕ, zero, suc, ◌^◌, ◌<◌, ◌≡◌, refl, ap, ◌∙◌, inl, inr, Bool, false, none, some, List, [], ◌∷◌,
  All-get, All-set, get_elem?, get_elem?-set_self, get_elem?-lt, ◌==◌, Bool-cases, arith,
}
use simple_bus_mdu.Types.{Request, request, lock_no}
use simple_bus_mdu.Bus.Forms.{Bus, get_request, is_pending, fill, last_address, burst}
use simple_bus_mdu.Bus.Requests.{get_request-in_place, get_request-priority}
use simple_bus_mdu.Bus.Sole.{NonePending, OthersIdle, NoLocks, Serving, Resting, OthersIdle-set}

pub record Quiet {S : Type 0} (b : Bus S) : Type 0 where
  pub current : b.current ≡ none
  pub none_pending : NonePending b.requests
  pub no_locks : NoLocks b.requests

kept-NonePending :
    (rs : List Request) (i : ℕ) {r : Request}
    → OthersIdle rs i
    → get_elem? rs i ≡ some r
    → is_pending r ≡ false
    → NonePending rs
kept-NonePending [] i o e p = tt
kept-NonePending (q ∷ rs) zero o e p = (ground arith, o)
kept-NonePending (q ∷ rs) (suc i) o e p = (o.0, kept-NonePending rs i o.1 e p)

kept-OthersIdle : (rs : List Request) (i : ℕ) → NonePending rs → OthersIdle rs i
kept-OthersIdle [] i h = tt
kept-OthersIdle (r ∷ rs) zero h = h.1
kept-OthersIdle (r ∷ rs) (suc i) h = (h.0, kept-OthersIdle rs i h.1)

-- A call that has come back leaves the bus quiet.
pub Resting-Quiet :
    {S : Type 0} (b : Bus S) (i : ℕ) {r : Request} → Resting b i r → is_pending r ≡ false → Quiet b
Resting-Quiet b i rest p = record {
  current = rest.current;
  none_pending = kept-NonePending b.requests i rest.others rest.at p;
  no_locks = rest.no_locks;
}

get_request-NonePending :
    (rs : List Request) (p : ℕ) → NonePending rs → NonePending (get_request rs p).2
unfolding get_request
get_request-NonePending [] p h = (refl, tt)
get_request-NonePending (r ∷ rs) p h = elim (Bool-cases (r.priority == p)) [
  | inl e ↦ rw e h
  | inr e ↦ rw e (h.0, get_request-NonePending rs p h.1)
]

get_request-NoLocks : (rs : List Request) (p : ℕ) → NoLocks rs → NoLocks (get_request rs p).2
unfolding get_request
get_request-NoLocks [] p h = (refl, tt)
get_request-NoLocks (r ∷ rs) p h = elim (Bool-cases (r.priority == p)) [
  | inl e ↦ rw e h
  | inr e ↦ rw e (h.0, get_request-NoLocks rs p h.1)
]

-- The form of a call, as the bus takes it.
abbrev pub asked : Bool → ℕ → ℕ → ℕ → ℕ → Request
asked do_write p at address length = record {
  priority = p;
  do_write = do_write;
  address = address;
  end_address = last_address address length;
  data_at = at;
  lock = lock_no;
  status = request;
}

pub last_address-one : (a : ℕ) → a < 2 ^ 32 → last_address a 1 ≡ a
last_address-one a h = omega arith

module _ {S : Type 0} where
  -- A call on a quiet bus makes its request the one to serve, and touches nothing else.
  pub burst-Serving :
      (do_write : Bool) (b : Bus S) (p at a length : ℕ)
      → Quiet b
      → let (i, b') = burst do_write b p at a length false in
        Serving b' i (asked do_write p at a length)
        × (b'.slave_port ≡ b.slave_port)
        × (b'.cells ≡ b.cells)
  unfolding burst fill
  burst-Serving do_write b p at a length quiet =
      let found = get_request b.requests p in
      let place = get_request-in_place b.requests p in
      let locks = get_request-NoLocks b.requests p quiet.no_locks in
      let unlocked = All-get (λ x. x.lock ≡ lock_no) found.2 found.0 locks place in
      let same = get_request-priority b.requests p in
      let form : Request = record found.1 {
        do_write = do_write;
        address = a;
        end_address = last_address a length;
        data_at = at;
        lock = found.1.lock;
        status = request;
      } in
      let is_form : form ≡ asked do_write p at a length = λ j. record {
        priority = same j;
        do_write = do_write;
        address = a;
        end_address = last_address a length;
        data_at = at;
        lock = unlocked j;
        status = request;
      } in
      (
        record {
          current = inl quiet.current;
          at =
              get_elem?-set_self found.2 found.0 form (get_elem?-lt found.2 found.0 place)
              ∙ ap some is_form;
          others = OthersIdle-set found.2 found.0 form (
              kept-OthersIdle found.2 found.0
                (get_request-NonePending b.requests p quiet.none_pending));
          is_due = refl;
          unlocked = refl;
          no_locks = All-set (λ x. x.lock ≡ lock_no) found.2 found.0 form locks unlocked;
        },
        refl,
        refl,
      )
