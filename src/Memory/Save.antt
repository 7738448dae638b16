-- ===== src/Memory/Save.antt =====
-- `saveReservationRequest`, on every branch.
use movie_reservation_servic.Prelude.{
  ◌+◌, ◌≤◌, ◌≡◌, Option, none, some, ◌===◌, ===_iff, ok, err, subst, sym, arith, Bool-cases, inl,
  inr, Option-cases,
}
use movie_reservation_servic.Prelude.JsMap.{get, set, has, get-set, set-IsMap}
use movie_reservation_servic.Errors.{request_already_exists}
use movie_reservation_servic.Domain.Request.{ReservationRequest, create_sequence, max_safe_integer}
use movie_reservation_servic.Work.{ObservabilityContext}
use movie_reservation_servic.Memory.Store.{Store, save_request, fresh_metadata}
use movie_reservation_servic.Memory.Invariant.{IsWellFormed}

-- The store after a request has been saved.
abbrev pub saved : Store → ReservationRequest → Option ObservabilityContext → Store
saved s r context = record s {
  requests = set s.requests r.id r;
  work_metadata = set s.work_metadata r.id (fresh_metadata s.next_sequence context);
  next_sequence = s.next_sequence + 1;
}

module _ (r : ReservationRequest) (context : Option ObservabilityContext) (s : Store) where
  pub save_request_new :
      get s.requests r.id ≡ none
      → 1 ≤ s.next_sequence
      → s.next_sequence ≤ max_safe_integer
      → save_request r context s ≡ (ok tt, saved s r context)
  unfolding save_request has create_sequence
  save_request_new free low high = ground arith

  pub save_request_known :
      (known : ReservationRequest)
      → get s.requests r.id ≡ some known
      → save_request r context s ≡ (err (request_already_exists r.id), s)
  unfolding save_request has
  save_request_known known e = ground arith

  pub saved-IsWellFormed :
      get s.requests r.id ≡ none → IsWellFormed s → IsWellFormed (saved s r context)
  saved-IsWellFormed free h = record {
    map = set-IsMap s.requests r.id r h.map;
    keyed = λ j q p. ground (arith, get-set s.requests r.id r j, ===_iff r.id j, h.keyed j q);
    tracked = λ j q p. elim (Bool-cases (r.id === j)) [
      | inl e ↦ (fresh_metadata s.next_sequence context, rw (get-set s.work_metadata r.id _ j, e))
      | inr e ↦
          let (m, at) = h.tracked j q (ground (arith, get-set s.requests r.id r j)) in
          (m, rw (get-set s.work_metadata r.id _ j, e) at)
    ];
    positive = omega (arith, h.positive);
    numbered = λ j m p. ground (
      arith,
      h.positive,
      get-set s.work_metadata r.id (fresh_metadata s.next_sequence context) j,
      h.numbered j m,
    );
    distinct = λ i j a b p q e. ground (
      arith,
      get-set s.work_metadata r.id (fresh_metadata s.next_sequence context) i,
      get-set s.work_metadata r.id (fresh_metadata s.next_sequence context) j,
      ===_iff r.id i,
      ===_iff r.id j,
      h.numbered i a,
      h.numbered j b,
      h.distinct i j a b,
    );
  }

  -- Saving keeps the store well formed: a new id gets the next sequence number, and a known id
  -- leaves the store as it was.
  pub save_request-IsWellFormed :
      s.next_sequence ≤ max_safe_integer
      → IsWellFormed s
      → IsWellFormed (save_request r context s).1
  save_request-IsWellFormed room h = elim (Option-cases (get s.requests r.id)) [
    | inl free ↦
        subst (λ x. IsWellFormed x.1) (sym (save_request_new free h.positive room))
          (saved-IsWellFormed free h)
    | inr (known, e) ↦ subst (λ x. IsWellFormed x.1) (sym (save_request_known known e)) h
  ]
