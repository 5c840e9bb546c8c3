-- ===== src/Base/Keyed.antt =====
-- Go maps as association lists: a write replaces the entry of its key, or adds one.
use mathlib.Core.Path.{◌≡◌, refl}
use mathlib.Core.Logic.{◌↔◌}
use emarsys_mock.Base.Lists.{select}
use mathlib.Core.Bool.{Bool, true}
use mathlib.Core.Option.{Option, none, some}
use mathlib.Core.List.{List, [], ◌∷◌}
use native.Mathlib.Omega.{arith}
use emarsys_mock.Base.Tests.{if◌then◌else◌}
use emarsys_mock.Base.Int.{ℤ, int_eq, int_eq_iff}
use emarsys_mock.Base.Text.{Str, str_eq, str_eq_iff}

-- What a map's keys need: a test that decides their equality.
pub record Eq {ℓ} (A : Type ℓ) : Type ℓ where
  pub beq : A → A → Bool
  pub beq_iff : (a b : A) → (beq a b ≡ true) ↔ (a ≡ b)

instance abbrev pub str_key : Eq Str
str_key = record { beq = str_eq; beq_iff = str_eq_iff }

instance abbrev pub int_key : Eq ℤ
int_key = record { beq = int_eq; beq_iff = int_eq_iff }

-- An entry that passes a test, if it is there.
abbrev pub keep {ℓ} : {V : Type ℓ} → (V → Bool) → Option V → Option V
keep p none = none
keep p (some v) = if p v then some v else none

module _ {ℓ} {K V : Type ℓ} ⦃e : Eq K⦄ where
  -- v, ok := m[k]
  unfoldable pub lookup : K → List (K × V) → Option V
  lookup k [] = none
  lookup k ((j, v) ∷ m) = let rest = lookup k m in if e.beq j k then some v else rest

  -- m[k] = v
  unfoldable pub put : K → V → List (K × V) → List (K × V)
  put k v [] = (k, v) ∷ []
  put k v ((j, w) ∷ m) = let rest = put k v m in if e.beq j k then (k, v) ∷ m else (j, w) ∷ rest

  pub lookup-put :
      (k j : K) (v : V) (m : List (K × V))
      → lookup j (put k v m) ≡ (if e.beq k j then some v else lookup j m)
  unfolding lookup put
  lookup-put k j v [] = refl
  lookup-put k j v ((i, w) ∷ m) =
      ground (arith, e.beq_iff k j, e.beq_iff i k, e.beq_iff i j, lookup-put k j v m)

  -- No key has two entries.
  abbrev pub IsMap : List (K × V) → Type ℓ
  IsMap [] = Unit
  IsMap ((k, v) ∷ m) = (lookup k m ≡ none) × IsMap m

  pub put-IsMap : (k : K) (v : V) (m : List (K × V)) → IsMap m → IsMap (put k v m)
  unfolding lookup put
  put-IsMap k v [] h = (refl, tt)
  put-IsMap k v ((j, w) ∷ m) (h, hs) =
      ground (arith, e.beq_iff j k, e.beq_iff k j, lookup-put k j v m, put-IsMap k v m hs)

  pub lookup-select :
      (p : V → Bool) (k : K) (m : List (K × V))
      → IsMap m
      → lookup k (select (λ x. p x.1) m) ≡ keep p (lookup k m)
  unfolding lookup select
  lookup-select p k [] h = refl
  lookup-select p k ((j, w) ∷ m) (h, hs) =
      ground (arith, e.beq_iff j k, lookup-select p k m hs, lookup-select p j m hs)

  pub select-IsMap : (p : V → Bool) (m : List (K × V)) → IsMap m → IsMap (select (λ x. p x.1) m)
  unfolding select
  select-IsMap p [] h = tt
  select-IsMap p ((j, w) ∷ m) (h, hs) = ground (arith, lookup-select p j m hs, select-IsMap p m hs)
