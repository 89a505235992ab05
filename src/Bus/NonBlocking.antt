-- ===== src/Bus/NonBlocking.antt =====
-- The non-blocking interface keeps the bus valid, and its assertion keeps a request that is under
-- way from being overwritten: src/simple_bus.cpp, read, write and get_status.
use simple_bus_mdu.Prelude.{
  ℕ, ◌≡◌, ◌≢◌, refl, ◌∙◌, Bool, true, false, Option, none, some, List, returns, fault,
  assert_failed, get_elem?, set, get_elem?-set_ne, Bool-cases, inl, inr, ◌⊎◌, arith, ◌++◌, [], ◌∷◌,
  zero, suc,
}
use simple_bus_mdu.Types.{Request, request, wait}
use simple_bus_mdu.Bus.Forms.{
  Bus, get_request, fill, is_finished, non_blocking, lock_if, get_status,
}
use simple_bus_mdu.Bus.Requests.{Unique-set, get_request-Found}
use simple_bus_mdu.Bus.Invariant.{IsValid, IsWaiting}

get-append :
    (rs qs : List Request) (i : ℕ) {r : Request}
    → get_elem? rs i ≡ some r
    → get_elem? (rs ++ qs) i ≡ some r
get-append [] qs i e = cc
get-append (r ∷ rs) qs zero e = e
get-append (r ∷ rs) qs (suc i) e = get-append rs qs i e

-- The current request is not the finished form at `j`.
kept-IsWaiting :
    (rs rs' : List Request) (c : Option ℕ) (j : ℕ) (v : Request) {r : Request}
    → IsWaiting rs c
    → (qs : List Request) → rs' ≡ rs ++ qs
    → get_elem? rs' j ≡ some r
    → is_finished r.status ≡ true
    → IsWaiting (set rs' j v) c
kept-IsWaiting rs rs' none j v w qs e at f = tt
kept-IsWaiting rs rs' (some i) j v {r} (q, found, waits) qs e at f =
    let there : get_elem? rs' i ≡ some q = rw e (get-append rs qs i found) in
    let apart : j ≢ i = λ same. clash q r i j waits there at f same in
    (q, get_elem?-set_ne rs' j i v apart ∙ there, waits)
  where
    clash :
        (q r : Request) (i j : ℕ)
        → q.status ≡ wait
        → get_elem? rs' i ≡ some q
        → get_elem? rs' j ≡ some r
        → is_finished r.status ≡ true
        → j ≡ i
        → ⊥
    clash q r i j waits there at f same =
        let one : get_elem? rs' i ≡ some r = rw same at at in ground arith

append-IsWaiting : (rs qs : List Request) (c : Option ℕ) → IsWaiting rs c → IsWaiting (rs ++ qs) c
append-IsWaiting rs qs none w = tt
append-IsWaiting rs qs (some i) (r, at, e) = (r, get-append rs qs i at, e)

module _ {S : Type 0} where
  pub fill-IsValid :
      (b : Bus S) (do_write : Bool) (p at start finish : ℕ) (lock : Bool)
      → IsValid b
      → is_finished (get_request b.requests p).1.status ≡ true
      → IsValid (fill b do_write p at start finish lock).1
  unfolding fill
  fill-IsValid b do_write p at start finish lock v f =
      let found = get_request-Found b.requests p v.unique in
      let (i, r, rs) = get_request b.requests p in
      let form : Request = record r {
        do_write = do_write;
        address = start;
        end_address = finish;
        data_at = at;
        lock = lock_if lock r.lock;
        status = request;
      } in
      record {
        unique = Unique-set rs i form found.in_place refl found.still_unique;
        waiting =
            kept-IsWaiting b.requests rs b.current i form v.waiting found.added found.old_kept
              found.in_place f;
      }

  pub get_status-IsValid : (b : Bus S) (p : ℕ) → IsValid b → IsValid (get_status b p).1
  unfolding get_status
  get_status-IsValid b p v =
      let found = get_request-Found b.requests p v.unique in
      record {
        unique = found.still_unique;
        waiting = rw found.old_kept (append-IsWaiting b.requests found.added b.current v.waiting);
      }

  -- `read` and `write` of a valid bus leave a valid bus where the form of that priority is finished,
  -- and fail by the assertion where it is not.
  pub non_blocking-IsValid :
      (do_write : Bool) (b : Bus S) (p at address : ℕ) (lock : Bool)
      → IsValid b
      → ((is_finished (get_request b.requests p).1.status ≡ true)
          × ((b' : Bus S) × (non_blocking do_write b p at address lock ≡ returns b') × IsValid b'))
        ⊎ ((is_finished (get_request b.requests p).1.status ≡ false)
            × (non_blocking do_write b p at address lock ≡ fault assert_failed))
  unfolding non_blocking
  non_blocking-IsValid do_write b p at address lock v =
      elim (Bool-cases (is_finished (get_request b.requests p).1.status)) [
        | inl e ↦ inl (
          e,
          (
            (fill b do_write p at address address lock).1,
            rw e,
            fill-IsValid b do_write p at address address lock v e,
          ),
        )
        | inr e ↦ inr (e, rw e)
      ]
