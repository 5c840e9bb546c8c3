-- ===== src/Auth/Middleware/Permission.antt =====
-- Which paths a user's permissions open.
use emarsys_mock.Base.{
  ◌≡◌, refl, ap, ◌↔◌, inl, inr, Bool-cases, arith, ◌-◌, Bool, true, false, List, [], ◌∷◌, ◌++◌, Str,
  lit, str_eq, str_eq_iff, str_eq_refl, if◌then◌else◌, has_prefix, has_prefix_iff,
  has_prefix-append, has_suffix, has_suffix_sound, has_suffix-append, length, length-append, take,
  drop, take-append,
}
use emarsys_mock.Auth.Middleware.{allows}

abbrev star : Str
star = b'*' ∷ []

-- A permission opens its own path, and if it ends in "*" every path that begins with what is before it.
pub data Opens : Str → Str → Type 0 where
  exact : {pattern path : Str} → pattern ≡ path → Opens pattern path
  prefix :
      {pattern path : Str} (p rest : Str)
      → pattern ≡ p ++ star
      → path ≡ p ++ rest
      → Opens pattern path

pub data SomeOpens (path : Str) : List Str → Type 0 where
  here :
      {pattern : Str} {patterns : List Str}
      → Opens pattern path
      → SomeOpens path (pattern ∷ patterns)
  there :
      {pattern : Str} {patterns : List Str}
      → SomeOpens path patterns
      → SomeOpens path (pattern ∷ patterns)

-- The test of one permission.
opens : Str → Str → Bool
opens pattern path =
    if str_eq pattern star
    then true
    else if has_suffix pattern star
    then has_prefix path (take (length pattern - 1) pattern)
    else str_eq pattern path

allows-opens :
    (pattern : Str) (patterns : List Str) (path : Str)
    → allows (pattern ∷ patterns) path ≡ (if opens pattern path then true else allows patterns path)
unfolding allows opens lit
allows-opens pattern patterns path = ground arith

trimmed : (p : Str) → take (length (p ++ star) - 1) (p ++ star) ≡ p
trimmed p =
    let n : length (p ++ star) - 1 ≡ length p = omega (arith, length-append p star) in
    rw (n) (take-append p star)

opens-starred : (p path : Str) → has_prefix path p ≡ true → opens (p ++ star) path ≡ true
unfolding opens
opens-starred p path h = ground (arith, has_suffix-append p star, ap (has_prefix path) (trimmed p))

opens_sound : (pattern path : Str) → opens pattern path ≡ true → Opens pattern path
unfolding opens
opens_sound pattern path h = elim (Bool-cases (str_eq pattern star)) [
  | inl e ↦ prefix [] path ((str_eq_iff pattern star).0 e) refl
  | inr e ↦ elim (Bool-cases (has_suffix pattern star)) [
    | inl f ↦
        let (p, shape) = has_suffix_sound pattern star f in
        let begins : has_prefix path (take (length pattern - 1) pattern) ≡ true = ground arith in
        let begins' : has_prefix path p ≡ true = rw (shape, trimmed p) at begins in
        prefix p (drop (length p) path) shape (has_prefix_iff path p begins')
    | inr f ↦
        let equal : str_eq pattern path ≡ true = ground arith in
        let same : pattern ≡ path = (str_eq_iff pattern path).0 equal in exact same
  ]
]

opens-exact : (path : Str) → has_suffix path star ≡ false → opens path path ≡ true
unfolding opens
opens-exact path h = ground (arith, str_eq_refl path)

opens_complete : (pattern path : Str) → Opens pattern path → opens pattern path ≡ true
opens_complete pattern path (exact e) = elim (Bool-cases (has_suffix path star)) [
  | inl f ↦
      let (p, shape) = has_suffix_sound path star f in
      rw (e, shape) (opens-starred p (p ++ star) (has_prefix-append p star))
  | inr f ↦ rw (e) (opens-exact path f)
]
opens_complete pattern path (prefix p rest e f) =
    rw (e, f) (opens-starred p (p ++ rest) (has_prefix-append p rest))

-- A user may call a path exactly when one of the user's permissions is that path, or is some text
-- followed by "*" that the path begins with.
pub allows-iff-SomeOpens :
    (patterns : List Str) (path : Str) → (allows patterns path ≡ true) ↔ SomeOpens path patterns
allows-iff-SomeOpens patterns path = (sound patterns path, complete patterns path)
  where
    sound :
        (patterns : List Str) (path : Str) → allows patterns path ≡ true → SomeOpens path patterns
    sound [] path h = unfold allows in cc
    sound (pattern ∷ patterns) path h = elim (Bool-cases (opens pattern path)) [
      | inl e ↦ here (opens_sound pattern path e)
      | inr e ↦ there (sound patterns path (ground (arith, allows-opens pattern patterns path)))
    ]

    complete :
        (patterns : List Str) (path : Str) → SomeOpens path patterns → allows patterns path ≡ true
    complete [] path o = elim o [ ]
    complete (pattern ∷ patterns) path (here o) =
        ground (arith, allows-opens pattern patterns path, opens_complete pattern path o)
    complete (pattern ∷ patterns) path (there o) =
        ground (arith, allows-opens pattern patterns path, complete patterns path o)
