-- ===== src/Server/Fault/Glob.antt =====
-- matchPattern decides the glob relation.
use emarsys_mock.Base.{
  ◌≡◌, refl, sym, ap, ◌∙◌, ◌↔◌, inl, inr, ◌≢◌, ℕ, ◌+◌, Bool, true, false, List, [], ◌∷◌, ◌++◌,
  append_assoc, Str, str_eq_iff, has_prefix, has_prefix_iff, has_prefix-append, has_suffix_sound,
  has_suffix-append, split_on, split_step, index_of, index_of-some, index_of-first, drop, length,
  drop-append, arith, Bool-cases, Option-cases, ◌==◌, ==_iff,
}
use emarsys_mock.Server.Fault.{match_rest, match_parts, match_pattern}

-- "*" stands for any text, and any other byte for itself.
pub data Glob : Str → Str → Type 0 where
  done : Glob [] []
  star :
      {c : ℕ} {pattern y s : Str} (x : Str)
      → c ≡ b'*'
      → s ≡ x ++ y
      → Glob pattern y
      → Glob (c ∷ pattern) s
  same : {c : ℕ} {pattern s : Str} → c ≢ b'*' → Glob pattern s → Glob (c ∷ pattern) (c ∷ s)

-- The parts that follow a "*" fit in a text, one behind the other, the last at its end.
Fits : Str → List Str → Type 0
Fits s [] = Unit
Fits s (last ∷ []) = (x : Str) × (s ≡ x ++ last)
Fits s (part ∷ next ∷ parts) =
    (x : Str) × (y : Str) × (s ≡ x ++ (part ++ y)) × Fits y (next ∷ parts)

-- More text in front does no harm.
Fits-append : (z s : Str) (parts : List Str) → Fits s parts → Fits (z ++ s) parts
unfolding Fits
Fits-append z s [] h = tt
Fits-append z s (last ∷ []) (x, e) = (z ++ x, rw (e, append_assoc))
Fits-append z s (part ∷ next ∷ parts) (x, y, e, h) = (z ++ x, y, rw (e, append_assoc), h)

match_rest_sound : (parts : List Str) (s : Str) → match_rest s parts ≡ true → Fits s parts
unfolding match_rest Fits
match_rest_sound [] s h = tt
match_rest_sound (last ∷ []) s h = has_suffix_sound s last h
match_rest_sound (part ∷ next ∷ parts) s h = elim (Option-cases (index_of s part)) [
  | inl e ↦ let no : ◌≡◌ {A = Bool} false true = rw (e, match_rest) at h in cc
  | inr (i, e) ↦
      let (x, split) = index_of-some s part i e in
      (
        x,
        drop (i + length part) s,
        split,
        match_rest_sound (next ∷ parts) (drop (i + length part) s) (rw (e, match_rest) at h),
      )
]

match_rest_complete : (parts : List Str) (s : Str) → Fits s parts → match_rest s parts ≡ true
unfolding match_rest Fits
match_rest_complete [] s h = refl
match_rest_complete (last ∷ []) s (x, e) = rw e (has_suffix-append x last)
match_rest_complete (part ∷ next ∷ parts) s (x, y, e, h) =
    let (i, z, at_i, rest) = index_of-first s part x y e in
    rw (at_i, match_rest)
      (rw rest (match_rest_complete (next ∷ parts) (z ++ y) (Fits-append z y (next ∷ parts) h)))

-- A text begins with the first part, and the others fit in what follows.
Starts : Str → List Str → Type 0
unfolding Fits
Starts s [] = ⊥
Starts s (only ∷ []) = s ≡ only
Starts s (first ∷ next ∷ parts) = (y : Str) × (s ≡ first ++ y) × Fits y (next ∷ parts)

split_on-ne-nil : (pattern : Str) → split_on b'*' pattern ≢ []
unfolding split_on
split_on-ne-nil [] e = cc
split_on-ne-nil (c ∷ pattern) e = split_step-ne-nil (c == b'*') c (split_on b'*' pattern) e
  where
    split_step-ne-nil : (b : Bool) (c : ℕ) (parts : List Str) → split_step b c parts ≢ []
    split_step-ne-nil true c parts e = cc
    split_step-ne-nil false c [] e = cc
    split_step-ne-nil false c (part ∷ parts) e = cc

split_step-single :
    (b : Bool) (c : ℕ) (parts : List Str) (only : Str)
    → parts ≢ []
    → split_step b c parts ≡ only ∷ []
    → (part : Str) × (parts ≡ part ∷ []) × (only ≡ c ∷ part)
split_step-single true c [] only n e = absurd (n refl)
split_step-single true c (part ∷ parts) only n e = cc
split_step-single false c [] only n e = absurd (n refl)
split_step-single false c (part ∷ []) only n e = (part, refl, ground arith)
split_step-single false c (part ∷ next ∷ parts) only n e = cc

-- A pattern with no "*" is its only part.
split_on-single : (pattern only : Str) → split_on b'*' pattern ≡ only ∷ [] → pattern ≡ only
unfolding split_on
split_on-single [] only e = ground arith
split_on-single (c ∷ pattern) only e =
    let (part, one, shape) =
      split_step-single (c == b'*') c (split_on b'*' pattern) only (split_on-ne-nil pattern) e in
    ap (λ (t : Str). c ∷ t) (split_on-single pattern part one) ∙ sym shape

match_parts_sound :
    (pattern path : Str) (parts : List Str)
    → ((only : Str) → parts ≡ only ∷ [] → pattern ≡ only)
    → match_parts pattern path parts ≡ true
    → Starts path parts
unfolding match_parts Starts
match_parts_sound pattern path [] single h = cc
match_parts_sound pattern path (only ∷ []) single h =
    sym ((str_eq_iff pattern path).0 h) ∙ single only refl
match_parts_sound pattern path (first ∷ next ∷ parts) single h =
    elim (Bool-cases (has_prefix path first)) [
      | inl e ↦ (
        drop (length first) path,
        has_prefix_iff path first e,
        match_rest_sound (next ∷ parts) (drop (length first) path) (rw (e, match_parts) at h),
      )
      | inr e ↦ let no : ◌≡◌ {A = Bool} false true = rw (e, match_parts) at h in cc
    ]

match_parts_complete :
    (pattern path : Str) (parts : List Str)
    → ((only : Str) → parts ≡ only ∷ [] → pattern ≡ only)
    → Starts path parts
    → match_parts pattern path parts ≡ true
unfolding match_parts Starts
match_parts_complete pattern path [] single h = elim h [ ]
match_parts_complete pattern path (only ∷ []) single h =
    (str_eq_iff pattern path).1 (single only refl ∙ sym h)
match_parts_complete pattern path (first ∷ next ∷ parts) single (y, e, fits) =
    rw (e, has_prefix-append) (rw drop-append (match_rest_complete (next ∷ parts) y fits))

Starts-star : (x y s : Str) (parts : List Str) → s ≡ x ++ y → Starts y parts → Starts s ([] ∷ parts)
unfolding Starts
Starts-star x y s [] e h = elim h [ ]
Starts-star x y s (only ∷ []) e h = (s, refl, (x, rw (← h) e))
Starts-star x y s (first ∷ next ∷ parts) e (z, f, fits) = (s, refl, (x, z, rw (← f) e, fits))

Starts-same :
    (c : ℕ) (s : Str) (parts : List Str)
    → Starts s parts
    → Starts (c ∷ s) (split_step false c parts)
unfolding Starts
Starts-same c s [] h = elim h [ ]
Starts-same c s (only ∷ []) h = ap (λ (t : Str). c ∷ t) h
Starts-same c s (first ∷ next ∷ parts) (y, e, fits) = (y, ap (λ (t : Str). c ∷ t) e, fits)

Glob-Starts : {pattern s : Str} → Glob pattern s → Starts s (split_on b'*' pattern)
unfolding split_on
Glob-Starts done = unfold Starts in refl
Glob-Starts (star {c} {pattern} {y} {s} x is_star e g) =
    rw is_star (Starts-star x y s (split_on b'*' pattern) e (Glob-Starts g))
Glob-Starts (same {c} {pattern} {s} not_star g) =
    let plain : (c == b'*') ≡ false = ground arith in
    rw plain (Starts-same c s (split_on b'*' pattern) (Glob-Starts g))

Starts-unstar :
    (s : Str) (parts : List Str)
    → parts ≢ []
    → Starts s ([] ∷ parts)
    → (x : Str) × (y : Str) × (s ≡ x ++ y) × Starts y parts
unfolding Starts
Starts-unstar s [] n h = absurd (n refl)
Starts-unstar s (only ∷ []) n (t, same_text, (x, e)) = (x, only, same_text ∙ e, refl)
Starts-unstar s (first ∷ next ∷ parts) n (t, same_text, (x, y, e, fits)) =
    (x, first ++ y, same_text ∙ e, (y, refl, fits))

Starts-unsame :
    (c : ℕ) (s : Str) (parts : List Str)
    → parts ≢ []
    → Starts s (split_step false c parts)
    → (t : Str) × (s ≡ c ∷ t) × Starts t parts
unfolding Starts
Starts-unsame c s [] n h = absurd (n refl)
Starts-unsame c s (only ∷ []) n h = (only, h, refl)
Starts-unsame c s (first ∷ next ∷ parts) n (y, e, fits) = (first ++ y, e, (y, refl, fits))

Starts-Glob : (pattern s : Str) → Starts s (split_on b'*' pattern) → Glob pattern s
unfolding split_on
Starts-Glob [] s h = let empty : s ≡ [] = unfold Starts in h in rw empty done
Starts-Glob (c ∷ pattern) s h = elim (Bool-cases (c == b'*')) [
  | inl e ↦
      let (x, y, shape, rest) =
        Starts-unstar s (split_on b'*' pattern) (split_on-ne-nil pattern) (rw e at h) in
      star x ((==_iff c b'*').0 e) shape (Starts-Glob pattern y rest)
  | inr e ↦
      let (t, shape, rest) =
        Starts-unsame c s (split_on b'*' pattern) (split_on-ne-nil pattern) (rw e at h) in
      rw shape (same (ground arith) (Starts-Glob pattern t rest))
]

-- The path pattern of a fault rule matches a path exactly when the path is the pattern with some
-- text in place of each "*": the search for the first occurrence of each part loses no match.
pub match_pattern-iff-Glob :
    (pattern path : Str) → (match_pattern pattern path ≡ true) ↔ Glob pattern path
unfolding match_pattern
match_pattern-iff-Glob pattern path = (
  λ h.
      Starts-Glob pattern path
        (match_parts_sound pattern path (split_on b'*' pattern) (split_on-single pattern) h),
  λ g.
      match_parts_complete pattern path (split_on b'*' pattern) (split_on-single pattern)
        (Glob-Starts g),
)
