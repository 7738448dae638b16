-- ===== src/Memory/Scan.antt =====
-- The loop of claimNextPendingReservationRequest and its specification.
use movie_reservation_servic.Prelude.{
  ◌≤◌, ◌≡◌, ap, sym, refl, subst, Option, none, some, List, [], ◌∷◌, Has, ok, arith, Bool-cases,
  inl, inr, ◌⊎◌, ◌↔◌, if◌then◌else◌, ltb,
}
use mathlib.Core.Path.{subst₂}
use movie_reservation_servic.Prelude.JsMap.{JsMap, get}
use movie_reservation_servic.Dates.{Dates}
use movie_reservation_servic.Domain.Request.{ReservationRequest}
use movie_reservation_servic.Work.{ClaimedReservationRequest, ClaimInput}
use movie_reservation_servic.Memory.Store.{WorkMetadata, metadata_of}
use movie_reservation_servic.Memory.Claim.{candidate, is_earlier, consider, scan}
use movie_reservation_servic.Memory.Eligible.{IsEligible, consider_eligible, consider-cases}

module _ (d : Dates) (input : ClaimInput) (metadata : JsMap WorkMetadata) where
  -- `r`, with metadata `m`, is the eligible request of the list that comes first in sequence.
  pub record IsFirst (rs : List ReservationRequest) (r : ReservationRequest) (m : WorkMetadata)
      : Type 0 where
    pub listed : Has r rs
    pub at : get metadata r.id ≡ some m
    pub eligible : IsEligible d input r m
    pub lowest :
        (q : ReservationRequest) (n : WorkMetadata)
        → Has q rs
        → get metadata q.id ≡ some n
        → IsEligible d input q n
        → m.sequence ≤ n.sequence

  abbrev pub NoneEligible : List ReservationRequest → Type 0
  NoneEligible rs =
      (q : ReservationRequest) (n : WorkMetadata)
      → Has q rs
      → get metadata q.id ≡ some n
      → ¬ IsEligible d input q n

  -- What the scan remembers of the requests that it has passed.
  abbrev pub Covers : List ReservationRequest → Option ClaimedReservationRequest → Type 0
  Covers rs none = NoneEligible rs
  Covers rs (some c) =
      (r : ReservationRequest) × (m : WorkMetadata) × IsFirst rs r m × (c ≡ candidate d input r m)

  module _ (r : ReservationRequest) (m : WorkMetadata) (at : get metadata r.id ≡ some m)
      (done : List ReservationRequest) where
    -- Facts about the metadata of `q`, when `q` is the request at hand.
    same_metadata :
        (q : ReservationRequest) (n : WorkMetadata)
        → r ≡ q
        → get metadata q.id ≡ some n
        → (m ≡ n) × (r ≡ q)
    same_metadata q n e f = (ground arith, e)

    skip-Covers :
        (next : Option ClaimedReservationRequest)
        → ¬ IsEligible d input r m
        → Covers done next
        → Covers (r ∷ done) next
    skip-Covers none shut h = λ q n p f e. elim p [
      | inl here ↦
          shut (subst₂ (IsEligible d input) (sym here) (sym (same_metadata q n here f).0) e)
      | inr later ↦ h q n later f e
    ]
    skip-Covers (some c) shut (b, k, first, same) = (
      b,
      k,
      record {
        listed = inr first.listed;
        at = first.at;
        eligible = first.eligible;
        lowest = λ q n p f e. elim p [
          | inl here ↦
              absurd
                (shut (subst₂ (IsEligible d input) (sym here) (sym (same_metadata q n here f).0) e))
          | inr later ↦ first.lowest q n later f e
        ];
      },
      same,
    )

    take-Covers :
        (next : Option ClaimedReservationRequest)
        → IsEligible d input r m
        → Covers done next
        → Covers
            (r ∷ done)
            (if is_earlier m.sequence next then some (candidate d input r m) else next)
    take-Covers none good h = (
      r,
      m,
      record {
        listed = inl refl;
        at = at;
        eligible = good;
        lowest = λ q n p f e. elim p [
          | inl here ↦
              omega (arith, ap (λ (w : WorkMetadata). w.sequence) (same_metadata q n here f).0)
          | inr later ↦ absurd (h q n later f e)
        ];
      },
      refl,
    )
    take-Covers (some c) good (b, k, first, same) = elim (Bool-cases (ltb m.sequence c.sequence)) [
      | inl less ↦ rw less (
        r,
        m,
        record {
          listed = inl refl;
          at = at;
          eligible = good;
          lowest = λ q n p f e. elim p [
            | inl here ↦
                omega (arith, ap (λ (w : WorkMetadata). w.sequence) (same_metadata q n here f).0)
            | inr later ↦ ground (arith, first.lowest q n later f e)
          ];
        },
        refl,
      )
      | inr more ↦ rw more (
        b,
        k,
        record {
          listed = inr first.listed;
          at = first.at;
          eligible = first.eligible;
          lowest = λ q n p f e. elim p [
            | inl here ↦ ground (arith, (same_metadata q n here f).0)
            | inr later ↦ first.lowest q n later f e
          ];
        },
        same,
      )
    ]

    consider-Covers :
        (next : Option ClaimedReservationRequest)
        → Covers done next
        → Covers (r ∷ done) (consider d input r m next)
    consider-Covers next h = elim (consider-cases d input r m next) [
      | inl good ↦
          subst (Covers (r ∷ done)) (sym (consider_eligible d input r m next good))
            (take-Covers next good h)
      | inr (shut, same) ↦ subst (Covers (r ∷ done)) (sym same) (skip-Covers next shut h)
    ]

  -- The requests in the order in which the scan leaves them behind.
  abbrev behind : List ReservationRequest → List ReservationRequest → List ReservationRequest
  behind [] done = done
  behind (r ∷ rs) done = behind rs (r ∷ done)

  -- Each request of the list has metadata.
  abbrev pub AllTracked : List ReservationRequest → Type 0
  AllTracked rs =
      (r : ReservationRequest) → Has r rs → (m : WorkMetadata) × (get metadata r.id ≡ some m)

  scan-Covers :
      (rs done : List ReservationRequest) (next : Option ClaimedReservationRequest)
      → AllTracked rs
      → Covers done next
      → (res : Option ClaimedReservationRequest) × (scan d input metadata rs next ≡ ok res)
        × Covers (behind rs done) res
  unfolding scan metadata_of
  scan-Covers [] done next tracked h = (next, refl, h)
  scan-Covers (r ∷ rs) done next tracked h =
      let (m, at) = tracked r (inl refl) in
      let (res, found, covers) =
        scan-Covers rs (r ∷ done) (consider d input r m next) (λ q p. tracked q (inr p))
          (consider-Covers r m at done next h) in
      (res, rw (at, scan) found, covers)

  Has-behind :
      (q : ReservationRequest) (rs done : List ReservationRequest)
      → Has q (behind rs done) ↔ (Has q rs ⊎ Has q done)
  Has-behind q [] done = (inr, λ p. elim p [ inl h ↦ absurd h | inr h ↦ h ])
  Has-behind q (r ∷ rs) done =
      let (to, from) = Has-behind q rs (r ∷ done) in
      (
        λ p. elim (to p) [
          | inl later ↦ inl (inr later)
          | inr (inl here) ↦ inl (inl here)
          | inr (inr old) ↦ inr old
        ],
        λ p. elim p [
          | inl (inl here) ↦ from (inr (inl here))
          | inl (inr later) ↦ from (inl later)
          | inr old ↦ from (inr (inr old))
        ],
      )

  behind-Covers :
      (rs : List ReservationRequest) (res : Option ClaimedReservationRequest)
      → Covers (behind rs []) res
      → Covers rs res
  behind-Covers rs none h = λ q n p. h q n ((Has-behind q rs []).1 (inl p))
  behind-Covers rs (some c) (r, m, first, same) = (
    r,
    m,
    record {
      listed = elim ((Has-behind r rs []).0 first.listed) [
        | inl p ↦ p
        | inr none_left ↦ absurd none_left
      ];
      at = first.at;
      eligible = first.eligible;
      lowest = λ q n p. first.lowest q n ((Has-behind q rs []).1 (inl p));
    },
    same,
  )

  -- The scan returns, and what it returns covers the list.
  pub scan_lem :
      (rs : List ReservationRequest)
      → AllTracked rs
      → (res : Option ClaimedReservationRequest) × (scan d input metadata rs none ≡ ok res)
        × Covers rs res
  scan_lem rs tracked =
      let (res, found, covers) = scan-Covers rs [] none tracked (λ q n p. absurd p) in
      (res, found, behind-Covers rs res covers)
