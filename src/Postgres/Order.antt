-- ===== src/Postgres/Order.antt =====
-- The rows that `where`, `orderBy` and `first` of the queries select.
use movie_reservation_servic.Prelude.{
  ℕ, ◌≤◌, ◌≡◌, refl, sym, ap, ◌∙◌, ◌⊎◌, ◌↔◌, inl, inr, true, none, some, arith, List, [], ◌∷◌, Has,
  leb, Bool, Bool-cases, filter,
}
use movie_reservation_servic.Postgres.Tables.{first, order_by, insert_by}

module _ {A : Type 0} where
  pub Has-filter :
      (p : A → Bool) (xs : List A) (a : A) → Has a (filter p xs) ↔ (Has a xs × (p a ≡ true))
  unfolding filter
  Has-filter p [] a = ground arith
  Has-filter p (x ∷ xs) a = elim (Bool-cases (p x)) [
    | inl yes_x ↦ rw yes_x (
        (
          λ h. elim h [
            | inl e ↦ (inl e, ap p (sym e) ∙ yes_x)
            | inr q ↦ let (m, k) = (Has-filter p xs a).0 q in (inr m, k)
          ],
          λ h. elim h.0 [ inl e ↦ inl e | inr q ↦ inr ((Has-filter p xs a).1 (q, h.1)) ],
        ))
    | inr no_x ↦ rw no_x (
        (
          λ h. let (m, k) = (Has-filter p xs a).0 h in (inr m, k),
          λ h. elim h.0 [
            | inl e ↦ absurd (ground (arith, ap p e))
            | inr q ↦ (Has-filter p xs a).1 (q, h.1)
          ],
        ))
  ]

  pub first-Has : (xs : List A) (a : A) → first xs ≡ some a → Has a xs
  first-Has [] a h = absurd (ground arith)
  first-Has (x ∷ xs) a h = inl (ground arith)

  pub first-none : (xs : List A) → first xs ≡ none → xs ≡ []
  first-none [] h = refl
  first-none (x ∷ xs) h = absurd (ground arith)

  Has-insert_by :
      (le : A → A → Bool) (x : A) (xs : List A) (a : A)
      → Has a (insert_by le x xs) ↔ ((x ≡ a) ⊎ Has a xs)
  unfolding insert_by
  Has-insert_by le x [] a = ground arith
  Has-insert_by le x (y ∷ ys) a = elim (Bool-cases (le x y)) [
    | inl before ↦ rw before (λ h. h, λ h. h)
    | inr after ↦ rw after (ground (arith, Has-insert_by le x ys a))
  ]

  pub Has-order_by : (le : A → A → Bool) (xs : List A) (a : A) → Has a (order_by le xs) ↔ Has a xs
  unfolding order_by
  Has-order_by le [] a = (λ h. h, λ h. h)
  Has-order_by le (x ∷ xs) a =
      ground (arith, Has-insert_by le x (order_by le xs) a, Has-order_by le xs a)

  module _ (key : A → ℕ) where
    abbrev by_key : A → A → Bool
    by_key a b = leb (key a) (key b)

    abbrev IsBelow : A → List A → Type 0
    IsBelow x ys = (y : A) → Has y ys → key x ≤ key y

    abbrev IsSorted : List A → Type 0
    IsSorted [] = Unit
    IsSorted (x ∷ xs) = IsBelow x xs × IsSorted xs

    insert_by-IsSorted : (x : A) (xs : List A) → IsSorted xs → IsSorted (insert_by by_key x xs)
    unfolding insert_by
    insert_by-IsSorted x [] h = (λ y m. absurd m, tt)
    insert_by-IsSorted x (y ∷ ys) h = elim (Bool-cases (leb (key x) (key y))) [
      | inl before ↦
          rw before (
            λ z m. elim m [ inl e ↦ ground (arith, ap key e) | inr q ↦ ground (arith, h.0 z q) ],
            h,
          )
      | inr after ↦ rw after (
        λ z m. elim ((Has-insert_by by_key x ys z).0 m) [
          | inl e ↦ ground (arith, ap key e)
          | inr q ↦ h.0 z q
        ],
        insert_by-IsSorted x ys h.1,
      )
    ]

    pub order_by-IsSorted : (xs : List A) → IsSorted (order_by by_key xs)
    unfolding order_by
    order_by-IsSorted [] = tt
    order_by-IsSorted (x ∷ xs) = insert_by-IsSorted x (order_by by_key xs) (order_by-IsSorted xs)

    first-filter-IsSorted :
        (q : A → Bool) (xs : List A) (a : A)
        → IsSorted xs
        → first (filter q xs) ≡ some a
        → (b : A) → Has b xs
        → q b ≡ true
        → key a ≤ key b
    unfolding filter
    first-filter-IsSorted q [] a s h b m k = absurd m
    first-filter-IsSorted q (x ∷ xs) a s h b m k = elim (Bool-cases (q x)) [
      | inl yes_x ↦ elim m [ inl e ↦ ground (arith, ap key e) | inr n ↦ ground (arith, s.0 b n) ]
      | inr no_x ↦ elim m [
        | inl e ↦ absurd (ground (arith, ap q e))
        | inr n ↦ first-filter-IsSorted q xs a s.1 (ground arith) b n k
      ]
    ]

    -- The first row of an ordered query has the least key of the rows that it may select.
    pub first-order_by-IsLeast :
        (p q : A → Bool) (xs : List A) (a : A)
        → first (filter q (order_by by_key (filter p xs))) ≡ some a
        → (b : A) → Has b xs
        → p b ≡ true
        → q b ≡ true
        → key a ≤ key b
    first-order_by-IsLeast p q xs a h b m yes_p yes_q =
        first-filter-IsSorted q (order_by by_key (filter p xs)) a (order_by-IsSorted (filter p xs))
          h b ((Has-order_by by_key (filter p xs) b).1 ((Has-filter p xs b).1 (m, yes_p))) yes_q

    pub first-order_by-Has :
        (p q : A → Bool) (xs : List A) (a : A)
        → first (filter q (order_by by_key (filter p xs))) ≡ some a
        → Has a xs × (p a ≡ true) × (q a ≡ true)
    first-order_by-Has p q xs a h =
        let (m, yes_q) =
          (Has-filter q (order_by by_key (filter p xs)) a).0
            (first-Has (filter q (order_by by_key (filter p xs))) a h) in
        let (n, yes_p) = (Has-filter p xs a).0 ((Has-order_by by_key (filter p xs) a).0 m) in
        (n, yes_p, yes_q)
