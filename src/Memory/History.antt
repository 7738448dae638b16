-- ===== src/Memory/History.antt =====
-- Sequences of calls of the adapters, and what they mean for a request.
use movie_reservation_servic.Prelude.{
  ◌+◌, ◌≤◌, ◌≡◌, ap, ◌∙◌, sym, refl, subst, some, List, [], ◌∷◌, JsString, length, arith, inl, inr,
}
use movie_reservation_servic.Prelude.JsMap.{get}
use movie_reservation_servic.Dates.{Dates}
use movie_reservation_servic.Domain.Request.{ReservationRequest, max_safe_integer}
use movie_reservation_servic.Memory.Store.{WorkMetadata, Store}
use movie_reservation_servic.Memory.Invariant.{IsWellFormed}
use movie_reservation_servic.Memory.Effect.{Command, run}
use movie_reservation_servic.Memory.Runs.{run-Effect}
use movie_reservation_servic.Memory.Lifecycle.{
  IsTerminal, Allowed-not-IsTerminal, IsNextVersion, Effect-IsWellFormed, Effect-request,
  Effect-sequence, Effect-next_sequence,
}

-- The calls of any number of workers and clients, in the order in which they reach the store.
unfoldable pub run_all : Dates → List Command → Store → Store
run_all d [] s = s
run_all d (c ∷ cs) s = run_all d cs (run d c s)

-- There are sequence numbers left for this many calls.
abbrev pub HasRoom : List Command → Store → Type 0
HasRoom cs s = s.next_sequence + length cs ≤ max_safe_integer

pub run-HasRoom :
    (d : Dates) (c : Command) (cs : List Command) (s : Store)
    → IsWellFormed s
    → HasRoom (c ∷ cs) s
    → HasRoom cs (run d c s)
run-HasRoom d c cs s h room = omega (arith, Effect-next_sequence (run-Effect d c s h (omega arith)))

-- A well-formed store stays well formed under every sequence of calls.
pub run_all-IsWellFormed :
    (d : Dates) (cs : List Command) (s : Store)
    → IsWellFormed s
    → HasRoom cs s
    → IsWellFormed (run_all d cs s)
unfolding run_all
run_all-IsWellFormed d [] s h room = h
run_all-IsWellFormed d (c ∷ cs) s h room =
    run_all-IsWellFormed d cs (run d c s) (Effect-IsWellFormed (run-Effect d c s h (omega arith)) h)
      (run-HasRoom d c cs s h room)

-- What no call changes of a request: all but its status.
pub record SameBooking (r r' : ReservationRequest) : Type 0 where
  pub id : r'.id ≡ r.id
  pub movie_provider_id : r'.movie_provider_id ≡ r.movie_provider_id
  pub screening_id : r'.screening_id ≡ r.screening_id
  pub seat_ids : r'.seat_ids ≡ r.seat_ids
  pub requested_by_user_id : r'.requested_by_user_id ≡ r.requested_by_user_id

SameBooking-refl : (r : ReservationRequest) → SameBooking r r
SameBooking-refl r = record {
  id = refl;
  movie_provider_id = refl;
  screening_id = refl;
  seat_ids = refl;
  requested_by_user_id = refl;
}

SameBooking-trans :
    (r q p : ReservationRequest) → SameBooking r q → SameBooking q p → SameBooking r p
SameBooking-trans r q p a b = record {
  id = b.id ∙ a.id;
  movie_provider_id = b.movie_provider_id ∙ a.movie_provider_id;
  screening_id = b.screening_id ∙ a.screening_id;
  seat_ids = b.seat_ids ∙ a.seat_ids;
  requested_by_user_id = b.requested_by_user_id ∙ a.requested_by_user_id;
}

version-SameBooking :
    (r q q' : ReservationRequest) → IsNextVersion q q' → SameBooking r q → SameBooking r q'
version-SameBooking r q q' (inl same) b = subst (SameBooking r) (sym same) b
version-SameBooking r q q' (inr (status, moved, allowed)) b =
    subst (SameBooking r) (sym moved) (record {
      id = b.id;
      movie_provider_id = b.movie_provider_id;
      screening_id = b.screening_id;
      seat_ids = b.seat_ids;
      requested_by_user_id = b.requested_by_user_id;
    })

version-terminal : (q q' : ReservationRequest) → IsNextVersion q q' → IsTerminal q.status → q' ≡ q
version-terminal q q' (inl same) h = same
version-terminal q q' (inr (status, moved, allowed)) h = absurd (Allowed-not-IsTerminal allowed h)

module _ (d : Dates) (k : JsString) where
  run_all-request :
      (cs : List Command) (s : Store) (r : ReservationRequest) (m : WorkMetadata)
      → IsWellFormed s
      → HasRoom cs s
      → get s.requests k ≡ some r
      → get s.work_metadata k ≡ some m
      → (r' : ReservationRequest) × (m' : WorkMetadata) × (get (run_all d cs s).requests k
          ≡ some r')
        × (get (run_all d cs s).work_metadata k ≡ some m')
        × (m'.sequence ≡ m.sequence)
        × SameBooking r r'
        × (IsTerminal r.status → r' ≡ r)
  unfolding run_all
  run_all-request [] s r m h room at seen = (r, m, at, seen, refl, SameBooking-refl r, λ t. refl)
  run_all-request (c ∷ cs) s r m h room at seen =
      let step = run-Effect d c s h (omega arith) in
      let (q, q_at, version) = Effect-request k r step at in
      let (n, n_seen, order) = Effect-sequence k r m step at seen in
      let (r', m', r_at, m_at, same, booking, settled) =
        run_all-request cs (run d c s) q n (Effect-IsWellFormed step h)
          (run-HasRoom d c cs s h room) q_at n_seen in
      (
        r',
        m',
        r_at,
        m_at,
        same ∙ order,
        SameBooking-trans r q r' (version-SameBooking r r q version (SameBooking-refl r)) booking,
        λ t.
            let kept = version-terminal r q version t in
            settled (subst (λ x. IsTerminal x.status) (sym kept) t) ∙ kept,
      )

  -- After any calls a stored request is still stored, with its id, provider, screening, seats and
  -- user, and its sequence number is the one that it was given.
  pub run_all-SameBooking :
      (cs : List Command) (s : Store) (r : ReservationRequest) (m : WorkMetadata)
      → IsWellFormed s
      → HasRoom cs s
      → get s.requests k ≡ some r
      → get s.work_metadata k ≡ some m
      → (r' : ReservationRequest) × (m' : WorkMetadata) × (get (run_all d cs s).requests k
          ≡ some r')
        × (get (run_all d cs s).work_metadata k ≡ some m')
        × (m'.sequence ≡ m.sequence)
        × SameBooking r r'
  run_all-SameBooking cs s r m h room at seen =
      let (r', m', r_at, m_at, same, booking, settled) = run_all-request cs s r m h room at seen in
      (r', m', r_at, m_at, same, booking)

  -- A request that is CONFIRMED, REJECTED or FAILED is stored as it is after any calls.
  pub run_all-IsTerminal :
      (cs : List Command) (s : Store) (r : ReservationRequest)
      → IsWellFormed s
      → HasRoom cs s
      → get s.requests k ≡ some r
      → IsTerminal r.status
      → get (run_all d cs s).requests k ≡ some r
  run_all-IsTerminal cs s r h room at t =
      let (m, seen) = h.tracked k r at in
      let (r', m', r_at, m_at, same, booking, settled) = run_all-request cs s r m h room at seen in
      r_at ∙ ap some (settled t)
