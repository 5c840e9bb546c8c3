-- ===== src/Store/Migrate/Names.antt =====
-- The names of the tables that are dropped.
use emarsys_mock.Base.{
  ◌≡◌, refl, arith, Bool, true, false, not, ◌&&◌, Option, none, some, List, [], ◌∷◌, ◌++◌, any,
  select, Str, lit, str_eq, str_eq_iff, like, some_end, is_empty, if◌then◌else◌,
}
use emarsys_mock.Store.Migrate.Drop.{is_internal, the_migrations}

module _ {A : Type 0} where
  pub select-ext :
      (p q : A → Bool) (xs : List A) → ((x : A) → p x ≡ q x) → select p xs ≡ select q xs
  unfolding select
  select-ext p q [] h = refl
  select-ext p q (x ∷ xs) h = rw (h x, select-ext p q xs h)

  pub select-true : (xs : List A) → select (λ x. true) xs ≡ xs
  unfolding select
  select-true [] = refl
  select-true (x ∷ xs) = rw (select-true xs)

  pub select-select :
      (p q : A → Bool) (xs : List A) → select q (select p xs) ≡ select (λ x. p x && q x) xs
  unfolding select
  select-select p q [] = refl
  select-select p q (x ∷ xs) = ground (arith, select-select p q xs)

abbrev pub applied_after : List Str → Option (List Str) → Option (List Str)
applied_after names applied = if any (str_eq (lit "schema_migrations")) names then none else applied

pub internal-any :
    (n : Str) (names : List Str)
    → is_internal n ≡ true
    → any (str_eq n) (select (λ m. not (is_internal m)) names) ≡ false
unfolding any select
internal-any n [] h = refl
internal-any n (m ∷ names) h = ground (arith, str_eq_iff n m, internal-any n names h)

pub user-any :
    (n : Str) (names : List Str)
    → is_internal n ≡ false
    → any (str_eq n) names ≡ true
    → any (str_eq n) (select (λ m. not (is_internal m)) names) ≡ true
unfolding any select
user-any n [] h e = cc
user-any n (m ∷ names) h e = ground (arith, str_eq_iff n m, user-any n names h)

pub in_either :
    (name : Str) (names : List Str) (applied : Option (List Str))
    → applied_after names (if str_eq name (lit "schema_migrations") then none else applied)
      ≡ applied_after (name ∷ names) applied
unfolding any
in_either name names applied =
    ground
      (arith, str_eq_iff name (lit "schema_migrations"), str_eq_iff (lit "schema_migrations") name)

pub migrations-user : is_internal (lit "schema_migrations") ≡ false
unfolding like some_end lit is_empty
migrations-user = refl

pub migrations-any :
    (applied : Option (List Str)) (n : Str)
    → is_internal n ≡ true
    → any (str_eq n) (the_migrations applied) ≡ false
unfolding any
migrations-any none n h = refl
migrations-any (some names) n h =
    ground (arith, str_eq_iff n (lit "schema_migrations"), migrations-user)

pub gone :
    (applied : Option (List Str)) (names : List Str)
    → applied_after (the_migrations applied ++ names) applied ≡ none
unfolding any
gone none names = ground arith
gone (some ns) names =
    ground (arith, str_eq_iff (lit "schema_migrations") (lit "schema_migrations"))
