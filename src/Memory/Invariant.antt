-- ===== src/Memory/Invariant.antt =====
-- The invariant of the shared store: requests are kept under their own ids, each with work metadata,
-- and sequence numbers are handed out once.
use movie_reservation_servic.Prelude.{
  ℕ, ◌≤◌, ◌<◌, ◌≡◌, subst, some, JsString, ◌===◌, ===_iff, arith, Bool-cases, inl, inr,
}
use movie_reservation_servic.Prelude.JsMap.{JsMap, get, set, get-set, IsMap, set-IsMap}
use movie_reservation_servic.Domain.Request.{ReservationRequest}
use movie_reservation_servic.Memory.Store.{WorkMetadata, Store}

pub record IsTracked (requests : JsMap ReservationRequest) (metadata : JsMap WorkMetadata)
    (next_sequence : ℕ) : Type 0 where
  pub map : IsMap requests
  pub keyed : (k : JsString) (r : ReservationRequest) → get requests k ≡ some r → r.id ≡ k
  pub tracked :
      (k : JsString) (r : ReservationRequest)
      → get requests k ≡ some r
      → (m : WorkMetadata) × (get metadata k ≡ some m)
  pub positive : 1 ≤ next_sequence
  pub numbered :
      (k : JsString) (m : WorkMetadata)
      → get metadata k ≡ some m
      → (1 ≤ m.sequence) × (m.sequence < next_sequence)
  pub distinct :
      (j k : JsString) (m n : WorkMetadata)
      → get metadata j ≡ some m
      → get metadata k ≡ some n
      → m.sequence ≡ n.sequence
      → j ≡ k

abbrev pub IsWellFormed : Store → Type 0
IsWellFormed s = IsTracked s.requests s.work_metadata s.next_sequence

-- Writing a new version of a request, and of its metadata with the same sequence number, keeps the
-- invariant.
module _ (requests : JsMap ReservationRequest) (metadata : JsMap WorkMetadata) (next : ℕ)
    (h : IsTracked requests metadata next) (k : JsString) where
  pub put_metadata-IsTracked :
      (m m' : WorkMetadata)
      → get metadata k ≡ some m
      → m'.sequence ≡ m.sequence
      → IsTracked requests (set metadata k m') next
  put_metadata-IsTracked m m' at same = record {
    map = h.map;
    keyed = h.keyed;
    tracked = λ j r p. elim (Bool-cases (k === j)) [
      | inl e ↦ (m', rw (get-set metadata k m' j, e))
      | inr e ↦ let (n, q) = h.tracked j r p in (n, rw (get-set metadata k m' j, e) q)
    ];
    positive = h.positive;
    numbered = λ j n p. ground (arith, get-set metadata k m' j, h.numbered k m at, h.numbered j n);
    distinct = λ i j a b p q e. ground (
      arith,
      get-set metadata k m' i,
      get-set metadata k m' j,
      ===_iff k i,
      ===_iff k j,
      h.distinct i j a b,
      h.distinct k j m b at,
      h.distinct i k a m,
    );
  }

  pub put_request-IsTracked :
      (r' : ReservationRequest) (m : WorkMetadata)
      → r'.id ≡ k
      → get metadata k ≡ some m
      → IsTracked (set requests k r') metadata next
  put_request-IsTracked r' m named at = record {
    map = set-IsMap requests k r' h.map;
    keyed = λ j r p. ground (arith, get-set requests k r' j, ===_iff k j, h.keyed j r);
    tracked = λ j r p. elim (Bool-cases (k === j)) [
      | inl e ↦ (m, subst (λ i. get metadata i ≡ some m) ((===_iff k j).0 e) at)
      | inr e ↦ h.tracked j r (ground (arith, get-set requests k r' j))
    ];
    positive = h.positive;
    numbered = h.numbered;
    distinct = h.distinct;
  }
