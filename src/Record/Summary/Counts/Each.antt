-- ===== src/Record/Summary/Counts/Each.antt =====
-- The endpoint of one method and template.
use emarsys_mock.Base.{
  ◌≡◌, refl, sym, ◌∙◌, arith, ℕ, zero, suc, ◌+◌, Bool, true, false, ◌&&◌, List, [], ◌∷◌, ◌++◌, map,
  select, all, Lacks, Str, str_eq, str_key, lookup, put, if◌then◌else◌,
}
use emarsys_mock.Record.Summary.{
  Exchange, Endpoint, Decoding, path_template, endpoint_key, endpoint_or, with_call,
}

abbrev pub is_for : Str → Str → Endpoint → Bool
is_for method template p = str_eq p.method method && str_eq p.template template

abbrev pub asks_for : Str → Str → Exchange → Bool
asks_for method template e = str_eq e.method method && str_eq (path_template e.path) template

-- The exchanges of a method and a template.
unfoldable pub count_for : Str → Str → List Exchange → ℕ
count_for method template [] = 0
count_for method template (e ∷ es) =
    (if asks_for method template e then 1 else 0) + count_for method template es

-- No endpoint, or one with so many calls
abbrev pub counted : ℕ → List ℕ
counted zero = []
counted (suc n) = suc n ∷ []

abbrev pub calls_for : Str → Str → List Endpoint → List ℕ
calls_for method template ps = map (λ (p : Endpoint). p.calls) (select (is_for method template) ps)

abbrev pub endpoints : List (Str × Endpoint) → List Endpoint
endpoints groups = map (λ (g : Str × Endpoint). g.1) groups

-- An entry's key is that of its endpoint, whose method has no space.
abbrev pub IsKeyed : Str × Endpoint → Type 0
IsKeyed g = Lacks b' ' g.1.method × (g.0 ≡ g.1.method ++ b' ' ∷ g.1.template)

pub space-parts :
    (a b t u : Str)
    → Lacks b' ' a
    → Lacks b' ' b
    → a ++ b' ' ∷ t ≡ b ++ b' ' ∷ u
    → (a ≡ b) × (t ≡ u)
unfolding all
space-parts [] [] t u h k e = (refl, cc)
space-parts [] (c ∷ b) t u h k e = let same : b' ' ≡ c = cc in absurd (ground arith)
space-parts (c ∷ a) [] t u h k e = let same : c ≡ b' ' = cc in absurd (ground arith)
space-parts (c ∷ a) (c' ∷ b) t u h k e =
    let same : c ≡ c' = cc in
    let rest : a ++ b' ' ∷ t ≡ b ++ b' ' ∷ u = cc in
    let (left, right) = space-parts a b t u (ground arith) (ground arith) rest in
    (rw (same, left) refl, right)

-- One call more of the first
abbrev pub bumped : List ℕ → List ℕ
bumped [] = 1 ∷ []
bumped (n ∷ ns) = (n + 1) ∷ ns

abbrev pub grouped : Decoding → Exchange → List (Str × Endpoint) → List (Str × Endpoint)
grouped d e groups =
    put (endpoint_key e) (with_call d e (endpoint_or e (lookup (endpoint_key e) groups))) groups

pub and-true : (a b : Bool) → a && b ≡ true → (a ≡ true) × (b ≡ true)
and-true true true h = (refl, refl)
and-true true false h = cc
and-true false b h = cc

pub is_for-with_call :
    (d : Decoding) (e : Exchange) (p : Endpoint)
    → ((with_call d e p).method ≡ p.method)
      × (((with_call d e p).template ≡ p.template) × ((with_call d e p).calls ≡ p.calls + 1))
unfolding with_call
is_for-with_call d e p = (refl, (refl, refl))

pub same_key :
    (e : Exchange) (g : Str × Endpoint)
    → Lacks b' ' e.method
    → IsKeyed g
    → g.0 ≡ endpoint_key e
    → (g.1.method ≡ e.method) × (g.1.template ≡ path_template e.path)
same_key e g h (k, is) same = space-parts g.1.method e.method _ _ k h (sym is ∙ same)
