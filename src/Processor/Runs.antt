-- ===== src/Processor/Runs.antt =====
-- Actions of the processor as bounded sequences of repository calls, and rules to bound them.
use movie_reservation_servic.Prelude.{
  ℕ, ◌+◌, ◌≤◌, ◌≡◌, ap, ◌∙◌, sym, refl, List, [], ◌∷◌, ◌++◌, length, length-append, Result, ok, err,
  Exec, ◌>>=◌, arith,
}
use movie_reservation_servic.Errors.{Error}
use movie_reservation_servic.Dates.{Dates}
use movie_reservation_servic.Memory.Store.{Store}
use movie_reservation_servic.Memory.Effect.{Command, run}
use movie_reservation_servic.Memory.History.{run_all}
use movie_reservation_servic.Processor.World.{World, in_store, handle}

module _ (d : Dates) where
  pub run_all-append :
      (cs ds : List Command) (s : Store) → run_all d (cs ++ ds) s ≡ run_all d ds (run_all d cs s)
  unfolding run_all
  run_all-append [] ds s = refl
  run_all-append (c ∷ cs) ds s = run_all-append cs ds (run d c s)

  -- The action makes at most `n` calls that write, whether it returns or throws.
  pub record Runs {A : Type 0} (n : ℕ) (m : Exec World A) : Type 0 where
    pub at :
        (w : World) → (cs : List Command) × (length cs ≤ n) × ((m w).1.store ≡ run_all d cs w.store)

  -- An action that leaves the store alone.
  pub Runs-quiet :
      {A : Type 0} (m : Exec World A) → ((w : World) → (m w).1.store ≡ w.store) → Runs 0 m
  unfolding run_all
  Runs-quiet m same = record { at = λ w. ([], omega arith, same w) }

  pub Runs-weaken : {A : Type 0} (n k : ℕ) (m : Exec World A) → n ≤ k → Runs n m → Runs k m
  Runs-weaken n k m le h = record {
    at = λ w. let (cs, fits, same) = h.at w in (cs, omega arith, same);
  }

  -- One call of the repository.
  pub Runs-command :
      {A : Type 0} (m : Exec Store A) (c : Command)
      → ((s : Store) → (m s).1 ≡ run d c s)
      → Runs 1 (in_store m)
  unfolding run_all
  Runs-command m c same = record { at = λ w. (c ∷ [], omega arith, same w.store) }

  -- The calls of a first action, and then those of the second from where it ended.
  both :
      (n k : ℕ) (w w' w'' : World)
      → ((cs : List Command) × (length cs ≤ n) × (w'.store ≡ run_all d cs w.store))
      → ((cs : List Command) × (length cs ≤ k) × (w''.store ≡ run_all d cs w'.store))
      → (cs : List Command) × (length cs ≤ n + k) × (w''.store ≡ run_all d cs w.store)
  both n k w w' w'' (cs, le, e) (ds, le', e') = (
    cs ++ ds,
    omega (arith, length-append cs ds),
    e' ∙ ap (run_all d ds) e ∙ sym (run_all-append cs ds w.store),
  )

  module _ {A B : Type 0} where
    pub Runs-handle :
        (n k : ℕ) (m : Exec World A) (f : A → Exec World B) (g : Error → Exec World B)
        → Runs n m
        → ((a : A) → Runs k (f a))
        → ((e : Error) → Runs k (g e))
        → Runs (n + k) (handle m f g)
    Runs-handle n k m f g hm hf hg = record { at = λ w. by_result w (m w).0 (m w).1 (hm.at w) }
      where
        by_result :
            (w : World) (r : Result A) (w' : World)
            → ((cs : List Command) × (length cs ≤ n) × (w'.store ≡ run_all d cs w.store))
            → (cs : List Command) × (length cs ≤ n + k)
              × ((elim r as (λ x. Result B × World) [ ok a ↦ f a w' | err e ↦ g e w' ]).1.store
                  ≡ run_all d cs w.store)
        by_result w (ok a) w' first = both n k w w' (f a w').1 first ((hf a).at w')
        by_result w (err e) w' first = both n k w w' (g e w').1 first ((hg e).at w')

    pub Runs-bind :
        (n k : ℕ) (m : Exec World A) (f : A → Exec World B)
        → Runs n m
        → ((a : A) → Runs k (f a))
        → Runs (n + k) (m >>= f)
    Runs-bind n k m f hm hf = record { at = λ w. by_result w (m w).0 (m w).1 (hm.at w) }
      where
        by_result :
            (w : World) (r : Result A) (w' : World)
            → ((cs : List Command) × (length cs ≤ n) × (w'.store ≡ run_all d cs w.store))
            → (cs : List Command) × (length cs ≤ n + k)
              × ((elim r as (λ x. Result B × World) [ ok a ↦ f a w' | err e ↦ (err e, w') ]).1.store
                  ≡ run_all d cs w.store)
        by_result w (ok a) w' first = both n k w w' (f a w').1 first ((hf a).at w')
        by_result w (err e) w' (cs, le, same) = (cs, omega arith, same)
