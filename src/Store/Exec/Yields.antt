-- ===== src/Store/Exec/Yields.antt =====
-- What holds when code returns: from tables with `P`, a result `a` comes with tables that have `Q a`.
-- Nothing is said of code that fails, since a transaction undoes what it wrote.
use emarsys_mock.Base.{
  ◌≡◌, refl, inl, inr, Bool-cases, List, [], ◌∷◌, Bool, true, false, if◌then◌else◌, arith, Option,
  none, some,
}
use emarsys_mock.Store.Tables.{Tables}
use emarsys_mock.Store.Exec.{
  Err, Result, ok, err, World, Exec, ◌>>=◌, continue, next, written, settle, pure, raise, query,
  exec, with_tx, map_err, retyped, lift, fold_each,
}
use emarsys_mock.Store.Exec.Rules.{Keeps, Reads}

pub record Yields {E A : Type 0} (P : Tables → Type 0) (m : Exec E A) (Q : A → Tables → Type 0)
    : Type 0 where
  pub at : (w : World) (a : A) → P w.tables → (m w).0 ≡ ok a → Q a (m w).1.tables

module _ {E A : Type 0} {P : Tables → Type 0} where
  pub Yields-pure :
      (a : A) {Q : A → Tables → Type 0} → ((t : Tables) → P t → Q a t) → Yields P (pure {E = E} a) Q
  unfolding pure
  Yields-pure a {Q} h = record {
    at = λ w b p q. let same : a ≡ b = ground arith in rw (← same) (h w.tables p);
  }

  pub Yields-anything : (m : Exec E A) → Yields P m (λ _ _. Unit {0})
  Yields-anything m = record { at = λ w a p q. tt }

  pub Yields-raise : (e : E) {Q : A → Tables → Type 0} → Yields P (raise e) Q
  unfolding raise
  Yields-raise e = record { at = λ w b p q. cc }

  -- Code that only reads keeps what held.
  pub Yields-of-Reads : {m : Exec E A} → Reads m → Yields P m (λ _. P)
  Yields-of-Reads h = record { at = λ w a p q. rw (h.at w) p }

  pub Yields-weaken :
      {m : Exec E A} {Q R : A → Tables → Type 0}
      → Yields P m Q
      → ((a : A) (t : Tables) → Q a t → R a t)
      → Yields P m R
  Yields-weaken {m} h k = record { at = λ w a p q. k a (m w).1.tables (h.at w a p q) }

  pub Yields-strengthen :
      {m : Exec E A} {O : Tables → Type 0} {Q : A → Tables → Type 0}
      → Yields P m Q
      → ((t : Tables) → O t → P t)
      → Yields O m Q
  Yields-strengthen h k = record { at = λ w a p q. h.at w a (k w.tables p) q }

  pub Yields-if :
      (b : Bool) (m n : Exec E A) {Q : A → Tables → Type 0}
      → (b ≡ true → Yields P m Q)
      → (b ≡ false → Yields P n Q)
      → Yields P (if b then m else n) Q
  Yields-if true m n h k = h refl
  Yields-if false m n h k = k refl

module _ {A : Type 0} where
  failed-ne-ok : {a : A} → err Err.failed ≡ ok a → ⊥
  failed-ne-ok q = cc

  ok-injective : {E : Type 0} {a b : A} → ◌≡◌ {A = Result E A} (ok a) (ok b) → a ≡ b
  ok-injective q = ground arith

module _ {A : Type 0} {P : Tables → Type 0} where
  -- A SELECT returns what it reads.
  pub Yields-query : (f : Tables → A) → Yields P (query f) (λ a t. P t × (f t ≡ a))
  unfolding query
  Yields-query f = record {
    at = λ w a p q. elim (Bool-cases (w.driver.fails w.calls)) [
      | inl e ↦ absurd (failed-ne-ok (rw e at q))
      | inr e ↦ rw e (p, ok-injective (rw e at q))
    ];
  }

  pub Yields-exec :
      (f : Tables → Option (A × Tables)) {Q : A → Tables → Type 0}
      → ((t : Tables) (a : A) (t' : Tables) → P t → f t ≡ some (a, t') → Q a t')
      → Yields P (exec f) Q
  unfolding exec
  Yields-exec f {Q} h = record {
    at = λ w a p q. elim (Bool-cases (w.driver.fails w.calls)) [
      | inl e ↦ absurd (failed-ne-ok (rw e at q))
      | inr e ↦ rw e (after w (f w.tables) a refl p (rw e at q))
    ];
  }
    where
      after :
          (w : World) (o : Option (A × Tables)) (a : A)
          → f w.tables ≡ o
          → P w.tables
          → (written w o).0 ≡ ok a
          → Q a (written w o).1.tables
      after w none a e p q = cc
      after w (some (b, t)) a e p q =
          let same : b ≡ a = ground arith in rw (← same) (h w.tables b t p e)

module _ {E A B : Type 0} where
  continue-Yields :
      (r : Result E A) (f : A → Exec E B) (w : World) (b : B) (Q : A → Tables → Type 0)
      (R : B → Tables → Type 0)
      → ((a : A) → r ≡ ok a → Q a w.tables)
      → ((a : A) → Yields (Q a) (f a) R)
      → (continue r f w).0 ≡ ok b
      → R b (continue r f w).1.tables
  continue-Yields (ok a) f w b Q R h k q = (k a).at w b (h a refl) q
  continue-Yields (err e) f w b Q R h k q = cc

module _ {E A B : Type 0} {P : Tables → Type 0} where
  pub Yields-bind :
      (m : Exec E A) (f : A → Exec E B) {Q : A → Tables → Type 0} {R : B → Tables → Type 0}
      → Yields P m Q
      → ((a : A) → Yields (Q a) (f a) R)
      → Yields P (m >>= f) R
  unfolding ◌>>=◌
  Yields-bind m f {Q} {R} h k = record {
    at = λ w b p q. let (r, w') = m w in continue-Yields r f w' b Q R (λ a e. h.at w a p e) k q;
  }

module _ {E S X : Type 0} (body : S → X → Exec E S) (J : List X → S → Tables → Type 0) where
  -- The loop rule: `J` speaks of the items that are left.
  pub Yields-fold_each :
      ((x : X) (xs : List X) (s : S) → Yields (J (x ∷ xs) s) (body s x) (J xs))
      → (xs : List X) (s : S) → Yields (J xs s) (fold_each xs s body) (J [])
  unfolding fold_each
  Yields-fold_each h [] s = Yields-pure s (λ t j. j)
  Yields-fold_each h (x ∷ xs) s =
      Yields-bind (body s x) (λ s'. fold_each xs s' body) (h x xs s)
        (λ s'. Yields-fold_each h xs s')

-- A transaction keeps what its body keeps when it returns: a body that fails is undone.
module _ {A : Type 0} where
  Keeps-settle_ok :
      (P : Tables → Type 0) (before : Tables) (x : Result Err A × World)
      → P before
      → ((a : A) → x.0 ≡ ok a → P x.1.tables)
      → P (settle before x).1.tables
  Keeps-settle_ok P before (err e, w) p q = p
  Keeps-settle_ok P before (ok a, w) p q = elim (Bool-cases (w.driver.fails w.calls)) [
    | inl e ↦ rw e p
    | inr e ↦ rw e (q a refl)
  ]

  pub Keeps-with_tx_Yields :
      {P : Tables → Type 0} (fn : Exec Err A) → Yields P fn (λ _. P) → Keeps P (with_tx fn)
  unfolding with_tx
  Keeps-with_tx_Yields {P} fn h = record {
    at = λ w p. elim (Bool-cases (w.driver.fails w.calls)) [
      | inl e ↦ rw e p
      | inr e ↦ rw e (Keeps-settle_ok P w.tables (fn (next w)) p (λ a q. h.at (next w) a p q))
    ];
  }

module _ {A : Type 0} where
  settle-Yields :
      (Q : A → Tables → Type 0) (before : Tables) (x : Result Err A × World) (a : A)
      → ((b : A) → x.0 ≡ ok b → Q b x.1.tables)
      → (settle before x).0 ≡ ok a
      → Q a (settle before x).1.tables
  settle-Yields Q before (err e, w) a h q = cc
  settle-Yields Q before (ok b, w) a h q = elim (Bool-cases (w.driver.fails w.calls)) [
    | inl e ↦ absurd (failed-ne-ok (rw e at q))
    | inr e ↦ rw e (h a (rw e at q))
  ]

  -- What the body of a transaction yields, the transaction yields.
  pub Yields-with_tx :
      {P : Tables → Type 0} {Q : A → Tables → Type 0} (fn : Exec Err A)
      → Yields P fn Q
      → Yields P (with_tx fn) Q
  unfolding with_tx
  Yields-with_tx {Q} fn h = record {
    at = λ w a p q. elim (Bool-cases (w.driver.fails w.calls)) [
      | inl e ↦ absurd (failed-ne-ok (rw e at q))
      | inr e ↦
          rw e (settle-Yields Q w.tables (fn (next w)) a (λ b r. h.at (next w) b p r) (rw e at q))
    ];
  }

module _ {E F A : Type 0} (g : E → F) where
  retyped-ok : (r : Result E A) (a : A) → retyped g r ≡ ok a → r ≡ ok a
  retyped-ok (ok b) a q = ground arith
  retyped-ok (err e) a q = cc

  pub Yields-map_err :
      {P : Tables → Type 0} {Q : A → Tables → Type 0} (m : Exec E A)
      → Yields P m Q
      → Yields P (map_err g m) Q
  unfolding map_err
  Yields-map_err m h = record { at = λ w a p q. h.at w a p (retyped-ok (m w).0 a q) }

-- A result that needs no world is the one that was given.
pub Yields-lift :
    {E A : Type 0} {P : Tables → Type 0} (r : Result E A)
    → Yields P (lift r) (λ a t. P t × (r ≡ ok a))
unfolding lift
Yields-lift r = record { at = λ w a p q. (p, q) }

-- A block whose first step is a given result goes on with it.
pub Yields-lift_ok :
    {E A B : Type 0} {P : Tables → Type 0} {R : B → Tables → Type 0} (a : A) (f : A → Exec E B)
    → Yields P (f a) R
    → Yields P (lift (ok a) >>= f) R
unfolding lift ◌>>=◌
Yields-lift_ok a f h = record { at = h.at }

-- A fact that came with the tables is a premise.
pub Yields-given :
    {E A F : Type 0} {P : Tables → Type 0} {Q : A → Tables → Type 0} {m : Exec E A}
    → (F → Yields P m Q)
    → Yields (λ t. P t × F) m Q
Yields-given h = record { at = λ w a p q. (h p.1).at w a p.0 q }

-- A premise that does not speak of the tables.
pub Yields-premise :
    {E A F : Type 0} {Q : A → Tables → Type 0} {m : Exec E A}
    → (F → Yields (λ _. Unit {0}) m Q)
    → Yields (λ _. F) m Q
Yields-premise h = record { at = λ w a p q. (h p).at w a tt q }
