-- ===== src/Record/Shape/Kept.antt =====
-- Pseudonyms keep the shape of a payload.
use emarsys_mock.Base.{
  ◌≡◌, refl, ap, ◌∙◌, inl, inr, Bool-cases, arith, ℕ, Bool, true, false, not, ◌&&◌, ◌||◌, [], ◌++◌,
  Str, lit, str_eq, str_eq_iff,
}
use emarsys_mock.Server.Json.{
  Json, null, str, num, bool, arr, obj, Items, nil, cons, Fields, end, field,
}
use emarsys_mock.Record.Patterns.{has_email}
use emarsys_mock.Record.Redact.{
  Redactor, is_contact_keyed, child_budget, out_key, put_field, redact, redact_items, redact_fields,
}
use emarsys_mock.Record.Shape.{
  Shape, fields_of, field_shape, with_field, observe, observe_items, observe_fields,
}

unfoldable pub has_key : Str → Fields → Bool
has_key k end = false
has_key k (field j v fs) = str_eq j k || has_key k fs

-- No object of a payload that is found under `key` is keyed by contacts, no key of an object is an
-- address, and the keys of an object are different.
unfoldable mutual
  pub is_plain : Json → Str → Bool
  is_plain null key = true
  is_plain (str s) key = true
  is_plain (num n) key = true
  is_plain (bool b) key = true
  is_plain (arr xs) key = plain_items xs (key ++ lit "[]")
  is_plain (obj fs) key = not (is_contact_keyed key) && plain_fields fs

  pub plain_items : Items → Str → Bool
  plain_items nil key = true
  plain_items (cons x xs) key = is_plain x key && plain_items xs key

  pub plain_fields : Fields → Bool
  plain_fields end = true
  plain_fields (field k v fs) =
      not (has_email k) && is_plain v k && not (has_key k fs) && plain_fields fs

-- No key of the first is one of the second.
apart : Fields → Fields → Bool
apart end out = true
apart (field k v fs) out = not (has_key k out) && apart fs out

has_key-put_field :
    (j k : Str) (v : Json) (out : Fields)
    → has_key j (put_field k v out) ≡ (has_key j out || str_eq k j)
unfolding has_key put_field
has_key-put_field j k v end = ground arith
has_key-put_field j k v (field i w out) =
    ground (arith, has_key-put_field j k v out, str_eq_iff i k)

apart-end : (fs : Fields) → apart fs end ≡ true
unfolding apart has_key
apart-end end = refl
apart-end (field k v fs) = ground (arith, apart-end fs)

has_key-apart :
    (k : Str) (v : Json) (fs out : Fields)
    → has_key k fs ≡ false
    → apart fs out ≡ true
    → apart fs (put_field k v out) ≡ true
unfolding apart has_key
has_key-apart k v end out h a = refl
has_key-apart k v (field j w fs) out h a =
    ground
      (arith, has_key-apart k v fs out, has_key-put_field j k v out, str_eq_iff j k, str_eq_iff k j)

out_key-plain : (r : Redactor) (k : Str) → has_email k ≡ false → out_key r false k ≡ k
unfolding out_key
out_key-plain r k h = rw (h)

module _ (is_integer : Str → Bool) where
  abbrev step : Str → Json → Shape → Shape
  step k v s = with_field k (observe is_integer v (field_shape k (fields_of s))) s

  observe_fields-put_field :
      (k : Str) (v : Json) (out : Fields) (s : Shape)
      → has_key k out ≡ false
      → observe_fields is_integer (put_field k v out) s ≡ step k v (observe_fields is_integer out s)
  unfolding observe put_field has_key
  observe_fields-put_field k v end s h = refl
  observe_fields-put_field k v (field j w out) s h = elim (Bool-cases (str_eq j k)) [
    | inl e ↦ let no : true ≡ false = rw (e) at h in cc
    | inr e ↦ rw (e) (observe_fields-put_field k v out (step j w s) (rw (e) at h))
  ]

  module _ (r : Redactor) where
    -- One field more of an object, with a pseudonym for its value.
    kept_field :
        (k : Str) (v v' : Json) (out : Fields) (s : Shape)
        → has_email k ≡ false
        → has_key k out ≡ false
        → ((t : Shape) → observe is_integer v' t ≡ observe is_integer v t)
        → observe_fields is_integer (put_field (out_key r false k) v' out) s
          ≡ step k v (observe_fields is_integer out s)
    kept_field k v v' out s plain absent same = rw (out_key-plain r k plain) (
        observe_fields-put_field k v' out s absent
        ∙ ap (λ (t : Shape). with_field k t (observe_fields is_integer out s))
            (same (field_shape k (fields_of (observe_fields is_integer out s)))))

    mutual
      unfolding redact observe is_plain apart

      kept :
          (v : Json) (key : Str) (b : ℕ) (s : Shape)
          → is_plain v key ≡ true
          → observe is_integer (redact r v key b) s ≡ observe is_integer v s
      kept null key b s h = refl
      kept (str v) key b s h = refl
      kept (num n) key b s h = refl
      kept (bool c) key b s h = refl
      kept (arr xs) key b s h = rw (kept_items xs (key ++ lit "[]") b _ h)
      kept (obj fs) key b s h =
          let impersonal : is_contact_keyed key ≡ false = ground arith in
          let plain : plain_fields fs ≡ true = ground arith in
          rw (impersonal) (kept_fields fs (child_budget key b) end _ plain (apart-end fs))

      kept_items :
          (xs : Items) (key : Str) (b : ℕ) (e : Shape)
          → plain_items xs key ≡ true
          → observe_items is_integer (redact_items r xs key b) e ≡ observe_items is_integer xs e
      kept_items nil key b e h = refl
      kept_items (cons x xs) key b e h =
          let here : is_plain x key ≡ true = ground arith in
          let rest : plain_items xs key ≡ true = ground arith in
          rw (kept x key b e here) (kept_items xs key b _ rest)

      kept_fields :
          (fs : Fields) (b : ℕ) (out : Fields) (s : Shape)
          → plain_fields fs ≡ true
          → apart fs out ≡ true
          → observe_fields is_integer (redact_fields r fs false b out) s
            ≡ observe_fields is_integer fs (observe_fields is_integer out s)
      kept_fields end b out s h a = refl
      kept_fields (field k v fs) b out s h a =
          let no_address : has_email k ≡ false = ground arith in
          let plain : is_plain v k ≡ true = ground arith in
          let alone : has_key k fs ≡ false = ground arith in
          let rest : plain_fields fs ≡ true = ground arith in
          let absent : has_key k out ≡ false = ground arith in
          let away : apart fs out ≡ true = ground arith in
          let away' : apart fs (put_field (out_key r false k) (redact r v k b) out) ≡ true =
            rw (out_key-plain r k no_address)
              (has_key-apart k (redact r v k b) fs out alone away) in
          kept_fields fs b (put_field (out_key r false k) (redact r v k b) out) s rest away'
          ∙ ap (observe_fields is_integer fs)
              (kept_field k v (redact r v k b) out s no_address absent (λ t. kept v k b t plain))

-- The shape that a recording gathers from a payload is that of the payload before its values were
-- replaced, whatever was gathered before, if no object of it is keyed by contacts, no key is an address
-- and the keys of an object are different.
pub observe-redact :
    (is_integer : Str → Bool) (r : Redactor) (v : Json) (s : Shape)
    → is_plain v [] ≡ true
    → observe is_integer (redact r v [] 0) s ≡ observe is_integer v s
observe-redact is_integer r v s h = kept is_integer r v [] 0 s h
