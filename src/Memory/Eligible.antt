-- ===== src/Memory/Eligible.antt =====
-- Which requests a claim may take, of claimNextPendingReservationRequest.
use movie_reservation_servic.Prelude.{
  ℕ, ◌≤◌, ◌<◌, ◌≡◌, sym, ◌∙◌, Bool, true, Option, none, some, JsString, ltb, ◌&&◌, ◌||◌, arith,
  Bool-cases, inl, inr, Option-cases, ◌⊎◌, ◌↔◌, if◌then◌else◌,
}
use mathlib.Core.Option.{some-injective}
use movie_reservation_servic.Dates.{Dates, not_after}
use movie_reservation_servic.Domain.Request.{requested, processing, ReservationRequest, same_status}
use movie_reservation_servic.Work.{ClaimedReservationRequest, ClaimInput}
use movie_reservation_servic.Memory.Store.{WorkMetadata}
use movie_reservation_servic.Memory.Claim.{is_expired, expires_by, candidate, is_earlier, consider}

-- The claim on a request has run out at `now`; a PROCESSING request with no expiry counts as such.
abbrev pub HasExpired : Dates → WorkMetadata → JsString → Type 0
HasExpired d m now =
    (m.claim_expires_at ≡ none)
    ⊎ ((e : JsString) × (t : ℕ) × (n : ℕ) × (m.claim_expires_at ≡ some e)
        × (d.get_time e ≡ some t)
        × (d.get_time now ≡ some n)
        × (t ≤ n))

-- Who may be claimed: a waiting request with transient failures to spare, or one whose claim has
-- expired.
abbrev pub IsEligible : Dates → ClaimInput → ReservationRequest → WorkMetadata → Type 0
IsEligible d input r m =
    ((r.status ≡ requested) × (m.transient_failure_count < input.max_transient_failures))
    ⊎ ((r.status ≡ processing) × HasExpired d m input.claimed_at)

not_after_iff :
    (d : Dates) (a b : JsString)
    → (not_after d a b ≡ true)
      ↔ ((t : ℕ) × (n : ℕ) × (d.get_time a ≡ some t) × (d.get_time b ≡ some n) × (t ≤ n))
unfolding not_after
not_after_iff d a b = elim (Option-cases (d.get_time a)) [
  | inl bad ↦ ground arith
  | inr (t, ea) ↦ elim (Option-cases (d.get_time b)) [
    | inl bad ↦ ground arith
    | inr (n, eb) ↦ (λ h. (t, n, ea, eb, ground arith), λ h. ground arith)
  ]
]

expires_by_iff :
    (d : Dates) (m : WorkMetadata) (now : JsString)
    → (expires_by d m.claim_expires_at now ≡ true) ↔ HasExpired d m now
expires_by_iff d m now = elim (Option-cases m.claim_expires_at) [
  | inl unset ↦ (λ h. inl unset, λ h. rw unset)
  | inr (e, at) ↦ (
    λ h.
        let (t, n, ea, eb, le) = (not_after_iff d e now).0 (rw (at, expires_by) at h) in
        inr (e, t, n, at, ea, eb, le),
    λ h. rw at (elim h [
      | inl unset ↦ absurd (ground arith)
      | inr (e', t, n, at', ea, eb, le) ↦
          (not_after_iff d e now).1 (t, n, rw (some-injective e e' (sym at ∙ at')) ea, eb, le)
    ]),
  )
]

pub is_expired_iff :
    (d : Dates) (r : ReservationRequest) (m : WorkMetadata) (now : JsString)
    → (is_expired d r m now ≡ true) ↔ ((r.status ≡ processing) × HasExpired d m now)
unfolding is_expired
is_expired_iff d r m now = (
  λ h. (ground arith, (expires_by_iff d m now).0 (ground arith)),
  λ h. ground (arith, (expires_by_iff d m now).1 h.1),
)

module _ (d : Dates) (input : ClaimInput) where
  -- A round of the scan keeps what it has, or takes an eligible request that is earlier.
  pub consider_eligible :
      (r : ReservationRequest) (m : WorkMetadata) (next : Option ClaimedReservationRequest)
      → IsEligible d input r m
      → consider d input r m next
        ≡ (if is_earlier m.sequence next then some (candidate d input r m) else next)
  unfolding consider
  consider_eligible r m next h = elim h [
    | inl waiting ↦ ground arith
    | inr late ↦ ground (arith, (is_expired_iff d r m input.claimed_at).1 late)
  ]

  -- The test that the two `continue`s amount to.
  abbrev pub is_open : ReservationRequest → WorkMetadata → Bool
  is_open r m =
      (same_status r.status requested && ltb m.transient_failure_count input.max_transient_failures)
      || is_expired d r m input.claimed_at

  pub is_open_iff :
      (r : ReservationRequest) (m : WorkMetadata) → (is_open r m ≡ true) ↔ IsEligible d input r m
  is_open_iff r m = elim (Bool-cases (is_expired d r m input.claimed_at)) [
    | inl late ↦ (λ h. inr ((is_expired_iff d r m input.claimed_at).0 late), λ h. ground arith)
    | inr held ↦ (
      λ h. inl (ground arith, ground arith),
      λ h. elim h [
        | inl waiting ↦ ground arith
        | inr late ↦ absurd (ground (arith, (is_expired_iff d r m input.claimed_at).1 late))
      ],
    )
  ]

  pub consider-cases :
      (r : ReservationRequest) (m : WorkMetadata) (next : Option ClaimedReservationRequest)
      → IsEligible d input r m ⊎ ((¬ IsEligible d input r m) × (consider d input r m next ≡ next))
  unfolding consider
  consider-cases r m next = elim (Bool-cases (is_open r m)) [
    | inl yes_open ↦ inl ((is_open_iff r m).0 yes_open)
    | inr shut ↦ inr (λ h. ground (arith, (is_open_iff r m).1 h), ground arith)
  ]
