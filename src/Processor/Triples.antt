-- ===== src/Processor/Triples.antt =====
-- What holds of the store when an action on the world returns: triples over the store, with an
-- invariant `I` that stands also when it throws.
use movie_reservation_servic.Prelude.{◌≡◌, sym, subst, Result, ok, err, Exec, ◌>>=◌}
use movie_reservation_servic.Errors.{Error}
use movie_reservation_servic.Memory.Store.{Store}
use movie_reservation_servic.Processor.World.{World, in_store, handle}

-- After a return, `Q` of what was returned; after a throw, the invariant alone.
abbrev pub Post : {A : Type 0} → (Store → Type 0) → (A → Store → Type 0) → Result A → Store → Type 0
Post I Q (ok a) s = I s × Q a s
Post I Q (err e) s = I s

-- A weaker invariant, and a weaker end
pub Post-weaken :
    {A : Type 0} (I J : Store → Type 0) (Q R : A → Store → Type 0) (r : Result A) (s : Store)
    → (I s → J s)
    → ((a : A) → I s → Q a s → R a s)
    → Post I Q r s
    → Post J R r s
Post-weaken I J Q R (ok a) s f g (h, q) = (f h, g a h q)
Post-weaken I J Q R (err e) s f g h = f h

abbrev pub Anything : Store → Type 0
Anything s = Unit

pub record Triple {A : Type 0} (I P : Store → Type 0) (m : Exec World A) (Q : A → Store → Type 0)
    : Type 0 where
  pub at : (w : World) → I w.store → P w.store → Post I Q (m w).0 (m w).1.store

module _ {A : Type 0} (I P : Store → Type 0) where
  -- An action that leaves the store alone.
  pub Triple-quiet :
      (m : Exec World A) → ((w : World) → (m w).1.store ≡ w.store) → Triple I P m (λ a. P)
  Triple-quiet m same = record {
    at = λ w h p. by_result (m w).0 (m w).1.store w.store h p (same w);
  }
    where
      by_result : (r : Result A) (s s' : Store) → I s' → P s' → s ≡ s' → Post I (λ a. P) r s
      by_result (ok a) s s' h p e = (subst I (sym e) h, subst P (sym e) p)
      by_result (err x) s s' h p e = subst I (sym e) h

  pub Triple-store :
      (m : Exec Store A) (Q : A → Store → Type 0)
      → ((s : Store) → I s → P s → Post I Q (m s).0 (m s).1)
      → Triple I P (in_store m) Q
  Triple-store m Q f = record { at = λ w h p. f w.store h p }

-- A precondition that does not speak of the store
pub Triple-given :
    {A : Type 0} (I : Store → Type 0) (X : Type 0) (m : Exec World A) (Q : A → Store → Type 0)
    → (X → Triple I Anything m Q)
    → Triple I (λ s. X) m Q
Triple-given I X m Q f = record { at = λ w h x. (f x).at w h tt }

module _ {A B : Type 0} (I P : Store → Type 0) (R : A → Store → Type 0) (Q : B → Store → Type 0)
    (m : Exec World A) (f : A → Exec World B) where
  pub Triple-bind : Triple I P m R → ((a : A) → Triple I (R a) (f a) Q) → Triple I P (m >>= f) Q
  Triple-bind hm hf = record { at = λ w h p. by_result (m w).0 (m w).1 (hm.at w h p) }
    where
      by_result :
          (r : Result A) (w' : World)
          → Post I R r w'.store
          → Post I Q
              (elim r as (λ x. Result B × World) [ ok a ↦ f a w' | err e ↦ (err e, w') ]).0
              (elim r as (λ x. Result B × World) [ ok a ↦ f a w' | err e ↦ (err e, w') ]).1.store
      by_result (ok a) w' (h, q) = (hf a).at w' h q
      by_result (err e) w' h = h

  pub Triple-handle :
      (g : Error → Exec World B)
      → Triple I P m R
      → ((a : A) → Triple I (R a) (f a) Q)
      → ((e : Error) → Triple I Anything (g e) Q)
      → Triple I P (handle m f g) Q
  Triple-handle g hm hf hg = record { at = λ w h p. by_result (m w).0 (m w).1 (hm.at w h p) }
    where
      by_result :
          (r : Result A) (w' : World)
          → Post I R r w'.store
          → Post I Q
              (elim r as (λ x. Result B × World) [ ok a ↦ f a w' | err e ↦ g e w' ]).0
              (elim r as (λ x. Result B × World) [ ok a ↦ f a w' | err e ↦ g e w' ]).1.store
      by_result (ok a) w' (h, q) = (hf a).at w' h q
      by_result (err e) w' h = (hg e).at w' h tt
