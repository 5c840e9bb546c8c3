-- ===== src/Store/Exec.antt =====
-- Code that talks to the database. A call of the driver may fail, whatever the statement: `Driver`
-- says which calls do, what the clock reads and what crypto/rand gives; it is part of the world and
-- never changes. What was written before an error stays written, unless a transaction undoes it.
pub mod Rules
pub mod Yields
use emarsys_mock.Base.{
  ℕ, ◌+◌, Bool, true, false, Option, none, some, Str, List, [], ◌∷◌, if◌then◌else◌,
}
use emarsys_mock.Store.Tables.{Tables}

-- The errors of package store: the driver's own, and its sentinel values.
pub data Err : Type 0 where
  failed no_contact no_field system_field no_list no_segment no_event event_exists no_export : Err
  export_not_ready no_fault_rule no_api_user no_change : Err

pub data Result (E A : Type 0) : Type 0 where
  ok : A → Result E A
  err : E → Result E A

pub record Driver : Type 0 where
  pub fails : ℕ → Bool
  pub now : ℕ → Str
  pub uid : ℕ → Option Str
  pub random : ℕ → ℕ

pub record World : Type 0 where
  pub tables : Tables
  pub calls : ℕ
  pub driver : Driver

abbrev pub Exec : Type 0 → Type 0 → Type 0
Exec E A = World → Result E A × World

-- The outside world was asked once more.
abbrev pub next : World → World
next w = record w { calls = w.calls + 1 }

module _ {E A B : Type 0} where
  abbrev pub continue : Result E A → (A → Exec E B) → Exec E B
  continue (ok a) f w = f a w
  continue (err e) f w = (err e, w)

  infixl 10 ◌>>=◌ ◌>>◌
  unfoldable pub ◌>>=◌ : Exec E A → (A → Exec E B) → Exec E B
  ◌>>=◌ m f w = let (r, w') = m w in continue r f w'

  abbrev pub ◌>>◌ : Exec E A → Exec E B → Exec E B
  m >> n = m >>= λ _. n

module _ {E A : Type 0} where
  unfoldable pub pure : A → Exec E A
  pure a w = (ok a, w)

  unfoldable pub raise : E → Exec E A
  raise e w = (err e, w)

-- A SELECT.
unfoldable pub query : {A : Type 0} → (Tables → A) → Exec Err A
query f w = if w.driver.fails w.calls then (err failed, next w) else (ok (f w.tables), next w)

abbrev pub written : {A : Type 0} → World → Option (A × Tables) → Result Err A × World
written w none = (err failed, next w)
written w (some (a, t)) = (ok a, record w { tables = t; calls = w.calls + 1 })

-- An INSERT, UPDATE or DELETE with what it returns; `none` is a violated constraint.
unfoldable pub exec : {A : Type 0} → (Tables → Option (A × Tables)) → Exec Err A
exec f w = if w.driver.fails w.calls then (err failed, next w) else written w (f w.tables)

-- time.Now().UTC().Format(time.RFC3339)
unfoldable pub now_string : {E : Type 0} → Exec E Str
now_string w = (ok (w.driver.now w.calls), next w)

-- newUID: crypto/rand may fail.
unfoldable pub new_uid : Exec Err Str
new_uid w = elim (w.driver.uid w.calls) [ none ↦ (err failed, next w) | some u ↦ (ok u, next w) ]

-- rand.Float64, in units of 2 ^ -53
unfoldable pub random_float : {E : Type 0} → Exec E ℕ
random_float w = (ok (w.driver.random w.calls), next w)

abbrev pub settle : {A : Type 0} → Tables → Result Err A × World → Result Err A × World
settle before (err e, w) = (err e, record w { tables = before })
settle before (ok a, w) =
    if w.driver.fails w.calls
    then (err failed, record w { tables = before; calls = w.calls + 1 })
    else (ok a, next w)

-- WithTx: begin, run, then commit, or roll back on an error.
unfoldable pub with_tx : {A : Type 0} → Exec Err A → Exec Err A
with_tx fn w =
    if w.driver.fails w.calls then (err failed, next w) else settle w.tables (fn (next w))

-- A result that needs no world.
unfoldable pub lift : {E A : Type 0} → Result E A → Exec E A
lift r w = (r, w)

abbrev pub retyped : {E F A : Type 0} → (E → F) → Result E A → Result F A
retyped g (ok a) = ok a
retyped g (err e) = err (g e)

-- Turns an error of one kind into another, as a handler does that answers it.
unfoldable pub map_err : {E F A : Type 0} → (E → F) → Exec E A → Exec F A
unfolding lift
map_err g m w = let (r, w') = m w in lift (retyped g r) w'

-- for _, x := range xs { s = body(s, x) }
unfoldable pub fold_each : {E S X : Type 0} → List X → S → (S → X → Exec E S) → Exec E S
unfolding pure ◌>>=◌
fold_each [] s body = pure s
fold_each (x ∷ xs) s body = body s x >>= λ s'. fold_each xs s' body
