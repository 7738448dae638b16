-- ===== src/Memory/Lifecycle.antt =====
-- The effects of one call on the invariant and on a single request.
use movie_reservation_servic.Prelude.{
  ◌+◌, ◌≤◌, ◌≡◌, ap, ◌∙◌, sym, refl, subst, some, JsString, ◌===◌, ===_iff, arith, Bool-cases, inl,
  inr, ◌⊎◌,
}
use mathlib.Core.Option.{some-injective}
use movie_reservation_servic.Prelude.JsMap.{JsMap, get, set, get-set, get-set_self, get-set_ne}
use movie_reservation_servic.Domain.Request.{
  ReservationRequestStatus, requested, processing, ReservationRequest,
}
use movie_reservation_servic.Memory.Store.{WorkMetadata, Store}
use movie_reservation_servic.Memory.Invariant.{
  IsWellFormed, put_request-IsTracked, put_metadata-IsTracked,
}
use movie_reservation_servic.Memory.Save.{saved-IsWellFormed}
use movie_reservation_servic.Memory.Owned.{with_status}
use movie_reservation_servic.Memory.Effect.{
  Allowed, IsMove, IsRenewal, Effect, unchanged, created, renewed, moved,
}

-- CONFIRMED, REJECTED and FAILED.
abbrev pub IsTerminal : ReservationRequestStatus → Type 0
IsTerminal requested = ⊥
IsTerminal processing = ⊥
IsTerminal _ = Unit

pub Allowed-not-IsTerminal : {a b : ReservationRequestStatus} → Allowed a b → ¬ IsTerminal a
Allowed-not-IsTerminal Allowed.claim h = h
Allowed-not-IsTerminal Allowed.reclaim h = h
Allowed-not-IsTerminal Allowed.confirm h = h
Allowed-not-IsTerminal Allowed.reject h = h
Allowed-not-IsTerminal Allowed.fail h = h
Allowed-not-IsTerminal Allowed.release h = h

move-IsWellFormed : {s t : Store} → IsMove s t → IsWellFormed s → IsWellFormed t
move-IsWellFormed {s} {t} v h =
    rw (v.requests, v.work_metadata, v.next_sequence)
      (put_metadata-IsTracked _ _ _
        (put_request-IsTracked s.requests s.work_metadata s.next_sequence h v.r.id
          (with_status v.r v.status) v.m refl v.tracked)
        v.r.id v.m v.m' v.tracked v.in_order)

renewal-IsWellFormed : {s t : Store} → IsRenewal s t → IsWellFormed s → IsWellFormed t
renewal-IsWellFormed {s} {t} v h =
    rw (v.requests, v.work_metadata, v.next_sequence)
      (put_metadata-IsTracked s.requests s.work_metadata s.next_sequence h v.k v.m v.m' v.tracked
        v.in_order)

pub Effect-IsWellFormed : {s t : Store} → Effect s t → IsWellFormed s → IsWellFormed t
Effect-IsWellFormed (unchanged e) h = subst IsWellFormed (sym e) h
Effect-IsWellFormed {s} (created r context free room e) h =
    subst IsWellFormed (sym e) (saved-IsWellFormed r context s free h)
Effect-IsWellFormed (renewed v) h = renewal-IsWellFormed v h
Effect-IsWellFormed (moved v) h = move-IsWellFormed v h

-- Two versions of one request: nothing but the status differs, and that by an edge of the
-- lifecycle, if at all.
abbrev pub IsNextVersion : ReservationRequest → ReservationRequest → Type 0
IsNextVersion r r' =
    (r' ≡ r)
    ⊎ ((status : ReservationRequestStatus) × (r' ≡ with_status r status) × Allowed r.status status)

pub Effect-request :
    {s t : Store} (k : JsString) (r : ReservationRequest)
    → Effect s t
    → get s.requests k ≡ some r
    → (r' : ReservationRequest) × (get t.requests k ≡ some r') × IsNextVersion r r'
Effect-request k r (unchanged e) at = (r, ap (λ (s : Store). get s.requests k) e ∙ at, inl refl)
Effect-request {s} k r (created q context free room e) at = (
  r,
  ap (λ (s : Store). get s.requests k) e ∙ get-set_ne s.requests q.id q k (λ p. cc) ∙ at,
  inl refl,
)
Effect-request k r (renewed v) at = (r, ap (λ m. get m k) v.requests ∙ at, inl refl)
Effect-request {s} k r (moved v) at = elim (Bool-cases (v.r.id === k)) [
  | inl same ↦
      let e = (===_iff v.r.id k).0 same in
      let it : r ≡ v.r = some-injective r v.r (sym at ∙ ap (get s.requests) (sym e) ∙ v.stored) in
      (
        with_status v.r v.status,
        ap (λ m. get m k) v.requests
            ∙ subst
                (λ j.
                  get (set s.requests v.r.id (with_status v.r v.status)) j
                  ≡ some (with_status v.r v.status))
                e (get-set_self s.requests v.r.id _),
        inr (
          v.status,
          ap (λ x. with_status x v.status) (sym it),
          subst (λ x. Allowed x.status v.status) (sym it) v.allowed,
        ),
      )
  | inr other ↦ (
    r,
    ap (λ m. get m k) v.requests
        ∙ ground (arith, get-set s.requests v.r.id (with_status v.r v.status) k),
    inl refl,
  )
]

-- A write that keeps the sequence number of one entry keeps it at every key.
set-sequence :
    (metadata : JsMap WorkMetadata) (j k : JsString) (n n' m : WorkMetadata)
    → get metadata j ≡ some n
    → n'.sequence ≡ n.sequence
    → get metadata k ≡ some m
    → (m' : WorkMetadata) × (get (set metadata j n') k ≡ some m') × (m'.sequence ≡ m.sequence)
set-sequence metadata j k n n' m at same seen = elim (Bool-cases (j === k)) [
  | inl e ↦ (n', ground (arith, get-set metadata j n' k), ground (arith, ===_iff j k))
  | inr e ↦ (m, ground (arith, get-set metadata j n' k), refl)
]

-- The sequence number of a request stays.
pub Effect-sequence :
    {s t : Store} (k : JsString) (r : ReservationRequest) (m : WorkMetadata)
    → Effect s t
    → get s.requests k ≡ some r
    → get s.work_metadata k ≡ some m
    → (m' : WorkMetadata) × (get t.work_metadata k ≡ some m') × (m'.sequence ≡ m.sequence)
Effect-sequence k r m (unchanged e) at seen =
    (m, ap (λ (s : Store). get s.work_metadata k) e ∙ seen, refl)
Effect-sequence {s} k r m (created q context free room e) at seen = (
  m,
  ap (λ (s : Store). get s.work_metadata k) e
      ∙ get-set_ne s.work_metadata q.id _ k (λ p. cc)
      ∙ seen,
  refl,
)
Effect-sequence {s} k r m (renewed v) at seen =
    rw v.work_metadata (set-sequence s.work_metadata v.k k v.m v.m' m v.tracked v.in_order seen)
Effect-sequence {s} k r m (moved v) at seen =
    rw v.work_metadata (set-sequence s.work_metadata v.r.id k v.m v.m' m v.tracked v.in_order seen)

pub Effect-next_sequence : {s t : Store} → Effect s t → t.next_sequence ≤ s.next_sequence + 1
Effect-next_sequence (unchanged e) = omega (arith, ap (λ (s : Store). s.next_sequence) e)
Effect-next_sequence (created q context free room e) =
    omega (arith, ap (λ (s : Store). s.next_sequence) e)
Effect-next_sequence (renewed v) = omega arith
Effect-next_sequence (moved v) = omega arith
