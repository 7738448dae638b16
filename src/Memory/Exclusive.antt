-- ===== src/Memory/Exclusive.antt =====
-- When reservations are apart, and the conflict search of findConflictingConfirmedReservation.
use movie_reservation_servic.Prelude.{
  ◌≡◌, ◌≢◌, sym, subst, ◌&&◌, true, false, none, some, List, [], ◌∷◌, JsString, ◌===◌, ===_iff,
  includes, Has, arith, Bool-cases, inl, inr,
}
use movie_reservation_servic.Prelude.JsMap.{JsMap, get, set, values, get-set, get-Has}
use movie_reservation_servic.Domain.Reservation.{Reservation}
use movie_reservation_servic.Memory.Settle.{overlaps, first_conflict}

-- Two reservations of one screening share no seat.
abbrev pub AreApart : Reservation → Reservation → Type 0
AreApart a b =
    a.screening_id ≡ b.screening_id
    → (seat : JsString) → includes a.seat_ids seat ≡ true
    → ¬ (includes b.seat_ids seat ≡ true)

-- Reservations with different ids share no seat of a screening.
pub record IsExclusive (reservations : JsMap Reservation) : Type 0 where
  pub apart :
      (j k : JsString) (a b : Reservation)
      → get reservations j ≡ some a
      → get reservations k ≡ some b
      → j ≢ k
      → AreApart a b

includes-overlaps :
    (xs asked : List JsString) (seat : JsString)
    → includes xs seat ≡ true
    → includes asked seat ≡ true
    → overlaps xs asked ≡ true
unfolding includes overlaps
includes-overlaps [] asked seat h k = cc
includes-overlaps (x ∷ xs) asked seat h k =
    ground (arith, ===_iff x seat, includes-overlaps xs asked seat, k)

-- A search without result: no reservation of the screening has one of the seats.
first_conflict-none :
    (screening_id : JsString) (seat_ids : List JsString) (rs : List Reservation) (r : Reservation)
    → first_conflict screening_id seat_ids rs ≡ none
    → Has r rs
    → r.screening_id ≡ screening_id
    → overlaps r.seat_ids seat_ids ≡ false
unfolding first_conflict
first_conflict-none screening_id seat_ids [] r h p e = elim p [ ]
first_conflict-none screening_id seat_ids (q ∷ qs) r h p e = elim p [
  | inl here ↦ ground (arith, ===_iff q.screening_id screening_id)
  | inr later ↦ first_conflict-none screening_id seat_ids qs r (ground arith) later e
]

-- What a search finds is a stored reservation of the screening, with one of the seats.
pub first_conflict-some :
    (screening_id : JsString) (seat_ids : List JsString) (rs : List Reservation) (r : Reservation)
    → first_conflict screening_id seat_ids rs ≡ some r
    → Has r rs × (r.screening_id ≡ screening_id) × (overlaps r.seat_ids seat_ids ≡ true)
unfolding first_conflict
first_conflict-some screening_id seat_ids [] r h = cc
first_conflict-some screening_id seat_ids (q ∷ qs) r h =
    elim (Bool-cases (q.screening_id === screening_id && overlaps q.seat_ids seat_ids)) [
      | inl found ↦
          (inl (ground arith), ground (arith, ===_iff q.screening_id screening_id), ground arith)
      | inr passed ↦
          let (p, e, o) = first_conflict-some screening_id seat_ids qs r (ground arith) in
          (inr p, e, o)
    ]

AreApart-sym : (a b : Reservation) → AreApart a b → AreApart b a
AreApart-sym a b h e seat p q = h (sym e) seat q p

module _ (reservations : JsMap Reservation) (r : Reservation)
    (free : first_conflict r.screening_id r.seat_ids (values reservations) ≡ none) where
  stored-AreApart : (k : JsString) (b : Reservation) → get reservations k ≡ some b → AreApart b r
  stored-AreApart k b at e seat p q =
      let clear = first_conflict-none r.screening_id r.seat_ids _ b free (get-Has _ k b at) e in
      cc (clear, includes-overlaps b.seat_ids r.seat_ids seat p q)

  -- A new reservation that meets no conflict keeps the seats exclusive.
  pub set-IsExclusive : IsExclusive reservations → IsExclusive (set reservations r.id r)
  set-IsExclusive h = record {
    apart = λ j k a b p q ne. elim (Bool-cases (r.id === j)) [
      | inl here ↦
          let same : r ≡ a = ground (arith, get-set reservations r.id r j) in
          let at : get reservations k ≡ some b =
            ground (arith, get-set reservations r.id r k, ===_iff r.id j, ===_iff r.id k) in
          subst (λ x. AreApart x b) same (AreApart-sym b r (stored-AreApart k b at))
      | inr other ↦
          let from : get reservations j ≡ some a = ground (arith, get-set reservations r.id r j) in
          elim (Bool-cases (r.id === k)) [
            | inl here ↦
                let same : r ≡ b = ground (arith, get-set reservations r.id r k) in
                subst (AreApart a) same (stored-AreApart j a from)
            | inr apart ↦ h.apart j k a b from (ground (arith, get-set reservations r.id r k)) ne
          ]
    ];
  }
