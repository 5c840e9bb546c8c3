-- ===== src/Record/Summary/Template.antt =====
-- The template of a path is its own template.
use emarsys_mock.Base.{
  ◌≡◌, refl, sym, ap, ◌∙◌, inl, inr, Bool-cases, arith, ℕ, ◌≤◌, Bool, true, false, List, [], ◌∷◌,
  map, Str, lit, length, all, ◌==◌, split_on, split_step, split_on-whole, split_on-first,
  split_on-Lacks, Lacks, All, ◌⊎◌, ◌↔◌, is_digit,
}
use emarsys_mock.Record.Patterns.{all_digits}
use emarsys_mock.Record.Summary.{join_path, template_segment, path_template}

-- strings.Split undoes strings.Join on parts without the separator.
split_on-join_path :
    (ss : List Str) → 1 ≤ length ss → All (Lacks b'/') ss → split_on b'/' (join_path ss) ≡ ss
unfolding join_path
split_on-join_path [] h a = absurd (omega arith)
split_on-join_path (s ∷ []) h (a, _) = split_on-whole b'/' s a
split_on-join_path (s ∷ t ∷ ss) h (a, bs) =
    split_on-first b'/' s (join_path (t ∷ ss)) a
    ∙ ap (λ (r : List Str). s ∷ r) (split_on-join_path (t ∷ ss) (omega arith) bs)

template_segment-Lacks : (s : Str) → Lacks b'/' s → Lacks b'/' (template_segment s)
unfolding lit all
template_segment-Lacks s h = elim (Bool-cases (all_digits s)) [
  | inl e ↦ rw (e) refl
  | inr e ↦ rw (e) h
]

segments-Lacks : (ss : List Str) → All (Lacks b'/') ss → All (Lacks b'/') (map template_segment ss)
segments-Lacks [] h = tt
segments-Lacks (s ∷ ss) (h, hs) = (template_segment-Lacks s h, segments-Lacks ss hs)

length-split_step : (b : Bool) (c : ℕ) (parts : List Str) → 1 ≤ length (split_step b c parts)
length-split_step true c parts = omega arith
length-split_step false c [] = omega arith
length-split_step false c (p ∷ parts) = omega arith

length-split_on : (sep : ℕ) (s : Str) → 1 ≤ length (split_on sep s)
unfolding split_on
length-split_on sep [] = omega arith
length-split_on sep (c ∷ s) = length-split_step (c == sep) c (split_on sep s)

length-map_segment : (ss : List Str) → length (map template_segment ss) ≡ length ss
length-map_segment [] = refl
length-map_segment (s ∷ ss) = omega (arith, length-map_segment ss)

-- A decimal digit, a segment of one digit or more, and what stands for an identifier.
abbrev pub IsDecimal : ℕ → Type 0
IsDecimal c = (48 ≤ c) × (c ≤ 57)

pub data IsIdentifier : Str → Type 0 where
  number : (c : ℕ) (s : Str) → All IsDecimal (c ∷ s) → IsIdentifier (c ∷ s)
  placeholder : IsIdentifier (b'{' ∷ b'i' ∷ b'd' ∷ b'}' ∷ [])

-- Two segments are the same text, or each is an identifier.
abbrev pub Alike : Str → Str → Type 0
Alike a b = (a ≡ b) ⊎ (IsIdentifier a × IsIdentifier b)

-- As many segments, alike one by one
abbrev pub AllAlike : List Str → List Str → Type 0
AllAlike [] [] = Unit
AllAlike (a ∷ as') (b ∷ bs) = Alike a b × AllAlike as' bs
AllAlike _ _ = ⊥

IsDecimal-iff : (c : ℕ) → (is_digit c ≡ true) ↔ IsDecimal c
IsDecimal-iff c = (λ h. (ground arith, ground arith), λ (a, b). ground arith)

all-IsDecimal : (s : Str) → all is_digit s ≡ true → All IsDecimal s
unfolding all
all-IsDecimal [] h = tt
all-IsDecimal (c ∷ s) h = ((IsDecimal-iff c).0 (ground arith), all-IsDecimal s (ground arith))

IsDecimal-all : (s : Str) → All IsDecimal s → all is_digit s ≡ true
unfolding all
IsDecimal-all [] h = refl
IsDecimal-all (c ∷ s) (d, h) = rw ((IsDecimal-iff c).1 d, IsDecimal-all s h)

all_digits-IsIdentifier : (s : Str) → all_digits s ≡ true → IsIdentifier s
unfolding all_digits
all_digits-IsIdentifier [] h = cc
all_digits-IsIdentifier (c ∷ s) h = number c s (all-IsDecimal (c ∷ s) h)

IsIdentifier-token : (s : Str) → IsIdentifier s → template_segment s ≡ lit "{id}"
unfolding all_digits all lit
IsIdentifier-token _ (number c s h) =
    let digits : all is_digit (c ∷ s) ≡ true = IsDecimal-all (c ∷ s) h in rw (digits) refl
IsIdentifier-token _ placeholder = refl

token-IsIdentifier : (s : Str) → lit "{id}" ≡ s → IsIdentifier s
unfolding lit
token-IsIdentifier s h = rw (← h) placeholder

template_segment-Alike : (a b : Str) → template_segment a ≡ template_segment b → Alike a b
template_segment-Alike a b h = elim (Bool-cases (all_digits a)) [
  | inl e ↦ elim (Bool-cases (all_digits b)) [
    | inl f ↦ inr (all_digits-IsIdentifier a e, all_digits-IsIdentifier b f)
    | inr f ↦ inr (all_digits-IsIdentifier a e, token-IsIdentifier b (rw (e, f) at h))
  ]
  | inr e ↦ elim (Bool-cases (all_digits b)) [
    | inl f ↦ inr (token-IsIdentifier a (sym (rw (e, f) at h)), all_digits-IsIdentifier b f)
    | inr f ↦ inl (rw (e, f) at h)
  ]
]

Alike-template_segment : (a b : Str) → Alike a b → template_segment a ≡ template_segment b
Alike-template_segment a b (inl e) = ap template_segment e
Alike-template_segment a b (inr (i, j)) = IsIdentifier-token a i ∙ sym (IsIdentifier-token b j)

segments-AllAlike :
    (as' bs : List Str) → map template_segment as' ≡ map template_segment bs → AllAlike as' bs
segments-AllAlike [] [] h = tt
segments-AllAlike [] (b ∷ bs) h = cc
segments-AllAlike (a ∷ as') [] h = cc
segments-AllAlike (a ∷ as') (b ∷ bs) h =
    let (first, rest) = ∷-parts h in
    (template_segment-Alike a b first, segments-AllAlike as' bs rest)
  where
    ∷-parts :
        {x y : Str} {xs ys : List Str} → ◌≡◌ {A = List Str} (x ∷ xs) (y ∷ ys) → (x ≡ y) × (xs ≡ ys)
    ∷-parts h = (cc, cc)

AllAlike-segments :
    (as' bs : List Str) → AllAlike as' bs → map template_segment as' ≡ map template_segment bs
AllAlike-segments [] [] h = refl
AllAlike-segments [] (b ∷ bs) h = absurd h
AllAlike-segments (a ∷ as') [] h = absurd h
AllAlike-segments (a ∷ as') (b ∷ bs) (h, hs) =
    rw (Alike-template_segment a b h, AllAlike-segments as' bs hs) refl

split_on-path_template :
    (path : Str) → split_on b'/' (path_template path) ≡ map template_segment (split_on b'/' path)
unfolding path_template
split_on-path_template path =
    let ss = split_on b'/' path in
    split_on-join_path (map template_segment ss)
      (omega (arith, length-map_segment ss, length-split_on b'/' path))
      (segments-Lacks ss (split_on-Lacks b'/' path))

-- Two paths have the same template just if they have as many segments and these are, one by one, the
-- same text or both identifiers: a number of one digit or more, or the text "{id}".
pub path_template-iff-AllAlike :
    (path other : Str)
    → (path_template path ≡ path_template other)
      ↔ AllAlike (split_on b'/' path) (split_on b'/' other)
path_template-iff-AllAlike path other = (
  λ h.
      segments-AllAlike _ _
        (sym (split_on-path_template path) ∙ ap (split_on b'/') h ∙ split_on-path_template other),
  λ h. join_same (AllAlike-segments _ _ h),
)
  where
    join_same :
        map template_segment (split_on b'/' path) ≡ map template_segment (split_on b'/' other)
        → path_template path ≡ path_template other
    join_same h = unfold path_template in ap join_path h
