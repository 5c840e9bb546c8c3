-- ===== src/Record/Proxy/Answers/Headers.antt =====
-- The headers that the loops of ServeHTTP copy.
use emarsys_mock.Base.{
  ◌≡◌, ◌⊎◌, refl, sym, ap, ◌∙◌, inl, inr, Bool-cases, Bool, true, false, not, ◌||◌, none, some,
  List, [], ◌∷◌, ◌++◌, append_assoc, Str, lit, str_eq, str_eq_iff, str_eq_refl, str_key, lookup,
  lookup-put, to_lower, equal_fold, if◌then◌else◌,
}
use emarsys_mock.Record.Proxy.{
  Values, or_no_values, add_value, add_values, copy_headers, is_forwarded,
}

-- All values of a name.
unfoldable pub values_of : Str → Values → List Str
values_of name [] = []
values_of name ((n, vs) ∷ headers) = (if str_eq n name then vs else []) ++ values_of name headers

-- The two names that the proxy does not send on, however they are spelled
abbrev pub IsHeldBack : Str → Type 0
IsHeldBack name = (to_lower name ≡ lit "host") ⊎ (to_lower name ≡ lit "content-length")

append_nil : (xs : List Str) → xs ++ [] ≡ xs
append_nil [] = refl
append_nil (x ∷ xs) = ap (λ (t : List Str). x ∷ t) (append_nil xs)

add_values-lookup :
    (name key : Str) (vs : List Str) (headers : Values)
    → or_no_values (lookup key (add_values name vs headers))
      ≡ or_no_values (lookup key headers) ++ (if str_eq name key then vs else [])
unfolding add_values
add_values-lookup name key [] headers = elim (Bool-cases (str_eq name key)) [
  | inl e ↦ rw (e) (sym (append_nil _))
  | inr e ↦ rw (e) (sym (append_nil _))
]
add_values-lookup name key (v ∷ vs) headers =
    add_values-lookup name key vs (add_value name headers v)
    ∙ rw (lookup-put name key (or_no_values (lookup name headers) ++ v ∷ []) headers)
        (here (str_eq name key) refl)
  where
    here :
        (b : Bool)
        → str_eq name key ≡ b
        → or_no_values (
              if str_eq name key
              then some (or_no_values (lookup name headers) ++ v ∷ [])
              else lookup key headers)
            ++ (if str_eq name key then vs else [])
          ≡ or_no_values (lookup key headers) ++ (if str_eq name key then v ∷ vs else [])
    here true e =
        let is : name ≡ key = (str_eq_iff name key).0 e in rw (e, is) (append_assoc _ (v ∷ []) vs)
    here false e = rw (e) refl

copy_headers-lookup :
    (p : Str → Bool) (key : Str) (headers acc : Values)
    → or_no_values (lookup key (copy_headers p headers acc))
      ≡ or_no_values (lookup key acc) ++ (if p key then values_of key headers else [])
unfolding copy_headers values_of
copy_headers-lookup p key [] acc = elim (Bool-cases (p key)) [
  | inl e ↦ rw (e) (sym (append_nil _))
  | inr e ↦ rw (e) (sym (append_nil _))
]
copy_headers-lookup p key ((name, vs) ∷ rest) acc =
    copy_headers-lookup p key rest (if p name then add_values name vs acc else acc)
    ∙ here (p name) refl (str_eq name key) refl
  where
    here :
        (b : Bool)
        → p name ≡ b
        → (c : Bool) → str_eq name key ≡ c
        → or_no_values (lookup key (if p name then add_values name vs acc else acc))
            ++ (if p key then values_of key rest else [])
          ≡ or_no_values (lookup key acc)
            ++ (if p key then (if str_eq name key then vs else []) ++ values_of key rest else [])
    here true e true f =
        let is : name ≡ key = (str_eq_iff name key).0 f in
        let pk : p key ≡ true = ap p (sym is) ∙ e in
        rw (e, add_values-lookup name key vs acc, f, pk) (append_assoc _ vs _)
    here true e false f = rw (e, add_values-lookup name key vs acc, f, append_nil) refl
    here false e true f =
        let is : name ≡ key = (str_eq_iff name key).0 f in
        let pk : p key ≡ false = ap p (sym is) ∙ e in rw (e, pk) refl
    here false e false f = rw (e, f) refl

pub copy_headers-values_of :
    (name : Str) (headers : Values)
    → or_no_values (lookup name (copy_headers (λ n. true) headers [])) ≡ values_of name headers
unfolding lookup
copy_headers-values_of name headers = copy_headers-lookup (λ n. true) name headers []

is_forwarded-held_back : (name : Str) → IsHeldBack name → is_forwarded name ≡ false
unfolding equal_fold lit to_lower
is_forwarded-held_back name (inl h) = rw (h, str_eq_refl) refl
is_forwarded-held_back name (inr h) = rw (h, str_eq_refl) (of_first (str_eq _ _))
  where
    of_first : (b : Bool) → not (b || true) ≡ false
    of_first true = refl
    of_first false = refl

is_forwarded-kept : (name : Str) → ¬ IsHeldBack name → is_forwarded name ≡ true
unfolding equal_fold lit to_lower
is_forwarded-kept name h = elim (Bool-cases (str_eq (to_lower name) (lit "host"))) [
  | inl e ↦ absurd (h (inl ((str_eq_iff _ _).0 e)))
  | inr e ↦ elim (Bool-cases (str_eq (to_lower name) (lit "content-length"))) [
    | inl f ↦ absurd (h (inr ((str_eq_iff _ _).0 f)))
    | inr f ↦ rw (e, f) refl
  ]
]

pub outbound_headers-values_of :
    (name : Str) (headers : Values)
    → ¬ IsHeldBack name
    → or_no_values (lookup name (copy_headers is_forwarded headers [])) ≡ values_of name headers
unfolding lookup
outbound_headers-values_of name headers h =
    copy_headers-lookup is_forwarded name headers [] ∙ rw (is_forwarded-kept name h) refl

add_values-other :
    (name key : Str) (vs : List Str) (headers : Values)
    → str_eq name key ≡ false
    → lookup key (add_values name vs headers) ≡ lookup key headers
unfolding add_values
add_values-other name key [] headers h = refl
add_values-other name key (v ∷ vs) headers h =
    add_values-other name key vs (add_value name headers v) h
    ∙ lookup-put name key (or_no_values (lookup name headers) ++ v ∷ []) headers
    ∙ rw (h) refl

copy_headers-left_out :
    (p : Str → Bool) (key : Str) (headers acc : Values)
    → p key ≡ false
    → lookup key (copy_headers p headers acc) ≡ lookup key acc
unfolding copy_headers
copy_headers-left_out p key [] acc h = refl
copy_headers-left_out p key ((name, vs) ∷ rest) acc h =
    copy_headers-left_out p key rest _ h ∙ here (p name) refl
  where
    here :
        (b : Bool)
        → p name ≡ b
        → lookup key (if p name then add_values name vs acc else acc) ≡ lookup key acc
    here false e = rw (e) refl
    here true e = rw (e) (add_values-other name key vs acc (differ (str_eq name key) refl))
      where
        differ : (b : Bool) → str_eq name key ≡ b → str_eq name key ≡ false
        differ false f = f
        differ true f = let same : p name ≡ p key = ap p ((str_eq_iff name key).0 f) in cc

pub outbound_headers-held_back :
    (name : Str) (headers : Values)
    → IsHeldBack name
    → lookup name (copy_headers is_forwarded headers []) ≡ none
unfolding lookup
outbound_headers-held_back name headers h =
    copy_headers-left_out is_forwarded name headers [] (is_forwarded-held_back name h)
