-- ===== src/Store/Exec/Rules.antt =====
-- Rules for the ways to build code: what keeps an invariant of the tables, what only reads, and what
-- leaves the tables as they were when it fails.
use emarsys_mock.Base.{
  ◌≡◌, refl, inl, inr, Bool-cases, List, [], ◌∷◌, Bool, true, false, if◌then◌else◌, arith, ap, ◌∙◌,
  Option, none, some,
}
use emarsys_mock.Store.Tables.{Tables}
use emarsys_mock.Store.Exec.{
  Err, Result, ok, err, World, Exec, ◌>>=◌, continue, next, written, settle, retyped, pure, raise,
  query, exec, now_string, new_uid, random_float, with_tx, map_err, lift, fold_each,
}

-- `m` keeps `P`, whether it returns or fails.
pub record Keeps {E A : Type 0} (P : Tables → Type 0) (m : Exec E A) : Type 0 where
  pub at : (w : World) → P w.tables → P (m w).1.tables

-- `m` writes nothing.
pub record Reads {E A : Type 0} (m : Exec E A) : Type 0 where
  pub at : (w : World) → (m w).1.tables ≡ w.tables

-- `m` writes nothing if it fails.
pub record Atomic {E A : Type 0} (m : Exec E A) : Type 0 where
  pub at : (w : World) (e : E) → (m w).0 ≡ err e → (m w).1.tables ≡ w.tables

module _ {E A : Type 0} where
  pub Reads-pure : (a : A) → Reads (pure {E = E} a)
  unfolding pure
  Reads-pure a = record { at = λ w. refl }

  pub Reads-raise : (e : E) → Reads (raise {A = A} e)
  unfolding raise
  Reads-raise e = record { at = λ w. refl }

  pub Reads-lift : (r : Result E A) → Reads (lift r)
  unfolding lift
  Reads-lift r = record { at = λ w. refl }

  pub Reads-if : (b : Bool) (m n : Exec E A) → Reads m → Reads n → Reads (if b then m else n)
  Reads-if true m n h k = h
  Reads-if false m n h k = k

  pub Keeps-of-Reads : {P : Tables → Type 0} {m : Exec E A} → Reads m → Keeps P m
  Keeps-of-Reads h = record { at = λ w p. rw (h.at w) p }

  pub Atomic-of-Reads : {m : Exec E A} → Reads m → Atomic m
  Atomic-of-Reads h = record { at = λ w e q. h.at w }

  pub Atomic-if : (b : Bool) (m n : Exec E A) → Atomic m → Atomic n → Atomic (if b then m else n)
  Atomic-if true m n h k = h
  Atomic-if false m n h k = k

pub Reads-query : {A : Type 0} (f : Tables → A) → Reads (query f)
unfolding query
Reads-query f = record { at = λ w. ground arith }

pub Reads-now_string : {E : Type 0} → Reads (now_string {E = E})
unfolding now_string
Reads-now_string = record { at = λ w. refl }

pub Reads-random_float : {E : Type 0} → Reads (random_float {E = E})
unfolding random_float
Reads-random_float = record { at = λ w. refl }

pub Reads-new_uid : Reads new_uid
unfolding new_uid
Reads-new_uid = record { at = λ w. ground arith }

module _ {E A B : Type 0} where
  Reads-continue :
      (r : Result E A) (f : A → Exec E B) (w : World)
      → ((a : A) → Reads (f a))
      → (continue r f w).1.tables ≡ w.tables
  Reads-continue (ok a) f w k = (k a).at w
  Reads-continue (err e) f w k = refl

  pub Reads-bind :
      (m : Exec E A) (f : A → Exec E B) → Reads m → ((a : A) → Reads (f a)) → Reads (m >>= f)
  unfolding ◌>>=◌
  Reads-bind m f h k = record { at = λ w. let (r, w') = m w in Reads-continue r f w' k ∙ h.at w }

  Keeps-continue :
      (P : Tables → Type 0) (r : Result E A) (f : A → Exec E B) (w : World)
      → ((a : A) → Keeps P (f a))
      → P w.tables
      → P (continue r f w).1.tables
  Keeps-continue P (ok a) f w k p = (k a).at w p
  Keeps-continue P (err e) f w k p = p

  pub Keeps-bind :
      {P : Tables → Type 0} (m : Exec E A) (f : A → Exec E B)
      → Keeps P m
      → ((a : A) → Keeps P (f a))
      → Keeps P (m >>= f)
  unfolding ◌>>=◌
  Keeps-bind {P} m f h k = record {
    at = λ w p. let (r, w') = m w in Keeps-continue P r f w' k (h.at w p);
  }

  Atomic-continue :
      (r : Result E A) (f : A → Exec E B) (w : World) (e : E)
      → ((a : A) → Atomic (f a))
      → (continue r f w).0 ≡ err e
      → (continue r f w).1.tables ≡ w.tables
  Atomic-continue (ok a) f w e k q = (k a).at w e q
  Atomic-continue (err _) f w e k q = refl

  -- What comes before only reads, so a failure later leaves what there was at first.
  pub Atomic-bind :
      (m : Exec E A) (f : A → Exec E B) → Reads m → ((a : A) → Atomic (f a)) → Atomic (m >>= f)
  unfolding ◌>>=◌
  Atomic-bind m f h k = record {
    at = λ w e q. let (r, w') = m w in Atomic-continue r f w' e k q ∙ h.at w;
  }

  Atomic-continue-pure :
      (r : Result E A) (g : A → B) (w : World) (e : E)
      → (continue r (λ a. pure (g a)) w).0 ≡ err e
      → ((continue r (λ a. pure (g a)) w).1 ≡ w) × (r ≡ err e)
  unfolding pure
  Atomic-continue-pure (ok a) g w e q = cc
  Atomic-continue-pure (err x) g w e q = ground arith

  -- What comes after cannot fail.
  pub Atomic-bind_pure : (m : Exec E A) (g : A → B) → Atomic m → Atomic (m >>= λ a. pure (g a))
  unfolding ◌>>=◌
  Atomic-bind_pure m g h = record {
    at = λ w e q.
        let (r, w') = m w in
        let both = Atomic-continue-pure r g w' e q in
        ap (λ (x : World). x.tables) both.0 ∙ h.at w e both.1;
  }

module _ {A : Type 0} where
  pub Keeps-exec :
      {P : Tables → Type 0} (f : Tables → Option (A × Tables))
      → ((t : Tables) (a : A) (t' : Tables) → f t ≡ some (a, t') → P t → P t')
      → Keeps P (exec f)
  unfolding exec
  Keeps-exec {P} f h = record {
    at = λ w p. elim (Bool-cases (w.driver.fails w.calls)) [
      | inl e ↦ rw e p
      | inr e ↦ rw e (Keeps-written w (f w.tables) (h w.tables) p)
    ];
  }
    where
      Keeps-written :
          (w : World) (o : Option (A × Tables))
          → ((a : A) (t' : Tables) → o ≡ some (a, t') → P w.tables → P t')
          → P w.tables
          → P (written w o).1.tables
      Keeps-written w none h p = p
      Keeps-written w (some (a, t)) h p = h a t refl p

  pub Atomic-exec : (f : Tables → Option (A × Tables)) → Atomic (exec f)
  unfolding exec
  Atomic-exec f = record { at = λ w e q. ground arith }

  -- A transaction that fails has written nothing, whatever its body wrote.
  pub Atomic-with_tx : (fn : Exec Err A) → Atomic (with_tx fn)
  unfolding with_tx
  Atomic-with_tx fn = record { at = λ w e q. ground arith }

  pub Keeps-with_tx : {P : Tables → Type 0} (fn : Exec Err A) → Keeps P fn → Keeps P (with_tx fn)
  unfolding with_tx
  Keeps-with_tx {P} fn h = record {
    at = λ w p. elim (Bool-cases (w.driver.fails w.calls)) [
      | inl e ↦ rw e p
      | inr e ↦ rw e (Keeps-settle w.tables (fn (next w)) p (h.at (next w) p))
    ];
  }
    where
      Keeps-settle :
          (before : Tables) (x : Result Err A × World)
          → P before
          → P x.1.tables
          → P (settle before x).1.tables
      Keeps-settle before (err e, w) p q = p
      Keeps-settle before (ok a, w) p q = elim (Bool-cases (w.driver.fails w.calls)) [
        | inl e ↦ rw e p
        | inr e ↦ rw e q
      ]

module _ {E F A : Type 0} (g : E → F) (m : Exec E A) where
  pub Reads-map_err : Reads m → Reads (map_err g m)
  unfolding map_err
  Reads-map_err h = record { at = h.at }

  pub Keeps-map_err : {P : Tables → Type 0} → Keeps P m → Keeps P (map_err g m)
  unfolding map_err
  Keeps-map_err h = record { at = h.at }

  Err-retyped : (r : Result E A) (e : F) → retyped g r ≡ err e → (x : E) × (r ≡ err x)
  Err-retyped (ok a) e q = cc
  Err-retyped (err x) e q = (x, refl)

  pub Atomic-map_err : Atomic m → Atomic (map_err g m)
  unfolding map_err
  Atomic-map_err h = record {
    at = λ w e q. let (x, failed) = Err-retyped (m w).0 e q in h.at w x failed;
  }

module _ {E S X : Type 0} (body : S → X → Exec E S) where
  pub Keeps-fold_each :
      {P : Tables → Type 0}
      → ((s : S) (x : X) → Keeps P (body s x))
      → (xs : List X) (s : S) → Keeps P (fold_each xs s body)
  unfolding fold_each
  Keeps-fold_each h [] s = Keeps-of-Reads (Reads-pure s)
  Keeps-fold_each h (x ∷ xs) s =
      Keeps-bind (body s x) (λ s'. fold_each xs s' body) (h s x) (λ s'. Keeps-fold_each h xs s')

  pub Reads-fold_each :
      ((s : S) (x : X) → Reads (body s x)) → (xs : List X) (s : S) → Reads (fold_each xs s body)
  unfolding fold_each
  Reads-fold_each h [] s = Reads-pure s
  Reads-fold_each h (x ∷ xs) s =
      Reads-bind (body s x) (λ s'. fold_each xs s' body) (h s x) (λ s'. Reads-fold_each h xs s')

-- Rules that `search` applies to code as it is written.
pub ruleset reads_rules = (
  Reads-pure, Reads-raise, Reads-lift, Reads-if, Reads-query, Reads-now_string, Reads-random_float,
  Reads-new_uid, Reads-bind, Reads-map_err, Reads-fold_each,
)

pub ruleset keeps_rules =
    (Keeps-of-Reads, Keeps-bind, Keeps-exec, Keeps-with_tx, Keeps-map_err, Keeps-fold_each)

pub ruleset atomic_rules = (
  Atomic-of-Reads, Atomic-if, Atomic-bind, Atomic-bind_pure, Atomic-exec, Atomic-with_tx,
  Atomic-map_err,
)
