-- ===== src/Memory/Fifo.antt =====
-- `claimNextPendingReservationRequest` and its specification: the next request, and what a claim of
-- it returns and writes.
use movie_reservation_servic.Prelude.{
  ◌≤◌, ◌≡◌, ap, ◌∙◌, sym, subst, Bool, Option, none, some, JsString, Has, ok, Result, arith,
  Bool-cases, inl, inr, ◌⊎◌, if◌then◌else◌, leb, ◌&&◌,
}
use mathlib.Core.Option.{some-injective}
use movie_reservation_servic.Prelude.JsMap.{get, set, values, get-Has, get_of_Has}
use movie_reservation_servic.Dates.{Dates}
use movie_reservation_servic.Domain.Request.{ReservationRequest, processing, failed}
use movie_reservation_servic.Work.{ClaimedReservationRequest, ClaimInput}
use movie_reservation_servic.Memory.Store.{WorkMetadata, Store}
use movie_reservation_servic.Memory.Metadata.{unclaimed}
use movie_reservation_servic.Memory.Claim.{
  candidate, scan, is_expired, lease_timeout_attempt, claim_metadata, take_over, claim_next,
}
use movie_reservation_servic.Memory.Invariant.{IsWellFormed}
use movie_reservation_servic.Memory.Eligible.{IsEligible, is_expired_iff}
use movie_reservation_servic.Memory.Scan.{IsFirst, NoneEligible, AllTracked, Covers, scan_lem}
use movie_reservation_servic.Memory.Owned.{settled, with_status}

module _ (d : Dates) (input : ClaimInput) where
  -- `r`, with metadata `m`, is the eligible request of the store that comes first in sequence.
  pub record IsNext (s : Store) (r : ReservationRequest) (m : WorkMetadata) : Type 0 where
    pub stored : get s.requests r.id ≡ some r
    pub tracked : get s.work_metadata r.id ≡ some m
    pub eligible : IsEligible d input r m
    pub lowest :
        (k : JsString) (q : ReservationRequest) (n : WorkMetadata)
        → get s.requests k ≡ some q
        → get s.work_metadata k ≡ some n
        → IsEligible d input q n
        → m.sequence ≤ n.sequence

  -- No request of the store may be claimed.
  abbrev pub IsIdle : Store → Type 0
  IsIdle s =
      (k : JsString) (q : ReservationRequest) (n : WorkMetadata)
      → get s.requests k ≡ some q
      → get s.work_metadata k ≡ some n
      → ¬ IsEligible d input q n

  -- The claim of `r` ran out once more than is allowed.
  abbrev pub is_spent : ReservationRequest → WorkMetadata → Bool
  is_spent r m =
      is_expired d r m input.claimed_at && leb input.max_lease_timeouts m.lease_timeout_count

  -- The work item that the claim of `r` hands out.
  abbrev pub claimed_item : ReservationRequest → WorkMetadata → ClaimedReservationRequest
  claimed_item r m = record (candidate d input r m) {
    reservation_request = with_status r processing;
  }

  -- The store after the claim of `r`.
  abbrev pub claimed_store : Store → ReservationRequest → WorkMetadata → Store
  claimed_store s r m = record s {
    requests = set s.requests r.id (with_status r processing);
    work_metadata = set s.work_metadata r.id (claim_metadata input (candidate d input r m));
  }

  -- The store after `r` has been given up.
  abbrev pub abandoned_store : Store → ReservationRequest → WorkMetadata → Store
  abandoned_store s r m =
      settled s (with_status r failed) (unclaimed m)
        (lease_timeout_attempt r m.sequence input.claimed_at)

  abbrev pub claim_result :
      Store → ReservationRequest → WorkMetadata → Result (Option ClaimedReservationRequest) × Store
  claim_result s r m =
      if is_spent r m
      then (ok none, abandoned_store s r m)
      else (ok (some (claimed_item r m)), claimed_store s r m)

  take_over_lem :
      (s : Store) (r : ReservationRequest) (m : WorkMetadata)
      → get s.work_metadata r.id ≡ some m
      → IsEligible d input r m
      → take_over d input (candidate d input r m) s ≡ claim_result s r m
  unfolding take_over
  take_over_lem s r m at good = elim (Bool-cases (is_expired d r m input.claimed_at)) [
    | inl late ↦ let (p, x) = (is_expired_iff d r m input.claimed_at).0 late in ground arith
    | inr held ↦ elim good [
      | inl (p, few) ↦ ground arith
      | inr lost ↦ absurd (ground (arith, (is_expired_iff d r m input.claimed_at).1 lost))
    ]
  ]

  module _ (s : Store) (h : IsWellFormed s) where
    values-AllTracked : AllTracked d input s.work_metadata (values s.requests)
    values-AllTracked r p =
        let (k, at) = get_of_Has s.requests r h.map p in
        let (m, seen) = h.tracked k r at in
        (m, subst (λ j. get s.work_metadata j ≡ some m) (sym (h.keyed k r at)) seen)

    -- What is listed is stored under its own id.
    Has-stored : (r : ReservationRequest) → Has r (values s.requests) → get s.requests r.id ≡ some r
    Has-stored r p =
        let (k, at) = get_of_Has s.requests r h.map p in
        subst (λ j. get s.requests j ≡ some r) (sym (h.keyed k r at)) at

    IsFirst-IsNext :
        (r : ReservationRequest) (m : WorkMetadata)
        → IsFirst d input s.work_metadata (values s.requests) r m
        → IsNext s r m
    IsFirst-IsNext r m first = record {
      stored = Has-stored r first.listed;
      tracked = first.at;
      eligible = first.eligible;
      lowest = λ k q n p f. first.lowest q n (get-Has s.requests k q p) (rw (h.keyed k q p) f);
    }

    NoneEligible-IsIdle : NoneEligible d input s.work_metadata (values s.requests) → IsIdle s
    NoneEligible-IsIdle free k q n p f = free q n (get-Has s.requests k q p) (rw (h.keyed k q p) f)

    -- Only one request is next.
    IsNext-unique :
        (r q : ReservationRequest) (m n : WorkMetadata)
        → IsNext s r m
        → IsNext s q n
        → (r ≡ q) × (m ≡ n)
    IsNext-unique r q m n a b =
        let up = a.lowest q.id q n b.stored b.tracked b.eligible in
        let down = b.lowest r.id r m a.stored a.tracked a.eligible in
        let same = h.distinct r.id q.id m n a.tracked b.tracked (omega arith) in
        (
          some-injective r q (sym a.stored ∙ rw same b.stored),
          some-injective m n (sym a.tracked ∙ rw same b.tracked),
        )

    claim_next_found :
        (r : ReservationRequest) (m : WorkMetadata)
        → IsNext s r m
        → scan d input s.work_metadata (values s.requests) none ≡ ok (some (candidate d input r m))
        → claim_next d input s ≡ claim_result s r m
    unfolding claim_next
    claim_next_found r m next found = rw found (take_over_lem s r m next.tracked next.eligible)

    -- The store has a next request, which the claim hands out or gives up, or it is idle, and the
    -- claim changes nothing.
    pub claim_next-cases :
        ((r : ReservationRequest) × (m : WorkMetadata) × IsNext s r m
          × (claim_next d input s ≡ claim_result s r m))
        ⊎ (IsIdle s × (claim_next d input s ≡ (ok none, s)))
    claim_next-cases =
        let (res, found, covers) =
          scan_lem d input s.work_metadata (values s.requests) values-AllTracked in
        by_scan res found covers
      where
        by_scan :
            (res : Option ClaimedReservationRequest)
            → scan d input s.work_metadata (values s.requests) none ≡ ok res
            → Covers d input s.work_metadata (values s.requests) res
            → ((r : ReservationRequest) × (m : WorkMetadata) × IsNext s r m
                × (claim_next d input s ≡ claim_result s r m))
              ⊎ (IsIdle s × (claim_next d input s ≡ (ok none, s)))
        by_scan none found free = inr (NoneEligible-IsIdle free, unfold claim_next in rw found)
        by_scan (some c) found (r, m, first, same) =
            let next = IsFirst-IsNext r m first in
            inl (r, m, next, claim_next_found r m next (found ∙ ap (λ x. ok (some x)) same))

    -- A claim takes the eligible request with the lowest sequence number: it hands it out as
    -- PROCESSING under the worker's token, or marks it FAILED when its lease timeouts are spent.
    pub claim_next_of_IsNext :
        (r : ReservationRequest) (m : WorkMetadata)
        → IsNext s r m
        → claim_next d input s ≡ claim_result s r m
    claim_next_of_IsNext r m next = elim claim_next-cases [
      | inl (q, n, other, e) ↦
          let (a, b) = IsNext-unique q r n m other next in e ∙ λ i. claim_result s (a i) (b i)
      | inr (idle, e) ↦ absurd (idle r.id r m next.stored next.tracked next.eligible)
    ]

    -- With no eligible request a claim returns `null` and changes nothing.
    pub claim_next_of_IsIdle : IsIdle s → claim_next d input s ≡ (ok none, s)
    claim_next_of_IsIdle idle = elim claim_next-cases [
      | inl (r, m, next, e) ↦ absurd (idle r.id r m next.stored next.tracked next.eligible)
      | inr (still, e) ↦ e
    ]
