-- ===== src/Record/Shape/Optional.antt =====
-- How often a field was seen, by which a description calls it optional.
use emarsys_mock.Base.{
  ◌≡◌, ◌↔◌, refl, ap, ◌∙◌, arith, ℕ, ◌+◌, ◌<◌, Bool, true, false, not, ◌&&◌, List, [], ◌∷◌, Str,
  str_eq, str_eq_iff, length, lit, if◌then◌else◌, All,
}
use emarsys_mock.Server.Json.{Json, null, str, num, bool, arr, obj, Fields, end, field}
use emarsys_mock.Record.Shape.{
  Shape, shape, new_shape, seen, fields_of, ShapeFields, no_fields, shape_field, field_shape,
  put_shape, sample, with_field, with_elem, elem_shape, observe, observe_fields, observe_items,
}
use emarsys_mock.Record.Shape.Kept.{has_key}
use emarsys_mock.Record.Describe.{is_optional}

-- The samples of a recording, one after the other.
unfoldable pub observe_all : (Str → Bool) → List Json → Shape → Shape
observe_all is_integer [] s = s
observe_all is_integer (v ∷ vs) s = observe_all is_integer vs (observe is_integer v s)

-- Whether a sample is an object with a field.
abbrev pub has_field : Str → Json → Bool
has_field k (obj fs) = has_key k fs
has_field k _ = false

unfoldable pub count_with : Str → List Json → ℕ
count_with k [] = 0
count_with k (v ∷ vs) = (if has_field k v then 1 else 0) + count_with k vs

-- The keys of an object are different.
unfoldable pub different : Fields → Bool
different end = true
different (field k v fs) = not (has_key k fs) && different fs

abbrev pub IsMap : Json → Type 0
IsMap (obj fs) = different fs ≡ true
IsMap _ = Unit {0}

field_shape-put_shape :
    (j k : Str) (t : Shape) (fs : ShapeFields)
    → field_shape j (put_shape k t fs) ≡ (if str_eq k j then t else field_shape j fs)
unfolding field_shape put_shape
field_shape-put_shape j k t no_fields = refl
field_shape-put_shape j k t (shape_field i u fs) =
    ground (arith, field_shape-put_shape j k t fs, str_eq_iff i k, str_eq_iff i j, str_eq_iff k j)

fields-with_field :
    (k : Str) (t s : Shape) → fields_of (with_field k t s) ≡ put_shape k t (fields_of s)
fields-with_field k t (shape kinds fs e n) = refl

seen-with_field : (k : Str) (t s : Shape) → seen (with_field k t s) ≡ seen s
seen-with_field k t (shape kinds fs e n) = refl

seen-sample : (kind : Str) (s : Shape) → seen (sample kind s) ≡ seen s + 1
seen-sample kind (shape kinds fs e n) = refl

fields-sample : (kind : Str) (s : Shape) → fields_of (sample kind s) ≡ fields_of s
fields-sample kind (shape kinds fs e n) = refl

seen-with_elem : (e s : Shape) → seen (with_elem e s) ≡ seen s
seen-with_elem e (shape kinds fs _ n) = refl

fields-with_elem : (e s : Shape) → fields_of (with_elem e s) ≡ fields_of s
fields-with_elem e (shape kinds fs _ n) = refl

module _ (is_integer : Str → Bool) where
  seen-observe_fields : (fs : Fields) (s : Shape) → seen (observe_fields is_integer fs s) ≡ seen s
  unfolding observe
  seen-observe_fields end s = refl
  seen-observe_fields (field k v fs) s =
      seen-observe_fields fs (with_field k (observe is_integer v (field_shape k (fields_of s))) s)
      ∙ seen-with_field k (observe is_integer v (field_shape k (fields_of s))) s

  -- Every sample is counted.
  seen-observe : (v : Json) (s : Shape) → seen (observe is_integer v s) ≡ seen s + 1
  unfolding observe
  seen-observe null s = seen-sample (lit "null") s
  seen-observe (str v) s = seen-sample (lit "string") s
  seen-observe (num n) s = seen-sample (if is_integer n then lit "integer" else lit "number") s
  seen-observe (bool b) s = seen-sample (lit "boolean") s
  seen-observe (arr xs) s =
      seen-with_elem (observe_items is_integer xs (elem_shape s)) (sample (lit "array") s)
      ∙ seen-sample (lit "array") s
  seen-observe (obj fs) s =
      seen-observe_fields fs (sample (lit "object") s) ∙ seen-sample (lit "object") s

  abbrev pub field_seen : Str → Shape → ℕ
  field_seen k s = seen (field_shape k (fields_of s))

  field_seen-observe_fields :
      (k : Str) (fs : Fields) (s : Shape)
      → different fs ≡ true
      → field_seen k (observe_fields is_integer fs s)
        ≡ field_seen k s + (if has_key k fs then 1 else 0)
  unfolding observe different has_key
  field_seen-observe_fields k end s h = omega arith
  field_seen-observe_fields k (field j v fs) s h =
      let t = observe is_integer v (field_shape j (fields_of s)) in
      let here : field_seen k (with_field j t s) ≡ (if str_eq j k then seen t else field_seen k s) =
        rw (fields-with_field j t s, field_shape-put_shape k j t (fields_of s)) (ground arith) in
      let once : seen t ≡ field_seen j s + 1 = seen-observe v (field_shape j (fields_of s)) in
      let rest = field_seen-observe_fields k fs (with_field j t s) (ground arith) in
      rest ∙ ground (arith, here, once, str_eq_iff j k)

  field_seen-observe :
      (k : Str) (v : Json) (s : Shape)
      → IsMap v
      → field_seen k (observe is_integer v s) ≡ field_seen k s + (if has_field k v then 1 else 0)
  unfolding observe
  field_seen-observe k null s h = rw (fields-sample (lit "null") s) (omega arith)
  field_seen-observe k (str v) s h = rw (fields-sample (lit "string") s) (omega arith)
  field_seen-observe k (num n) s h =
      rw (fields-sample (if is_integer n then lit "integer" else lit "number") s) (omega arith)
  field_seen-observe k (bool b) s h = rw (fields-sample (lit "boolean") s) (omega arith)
  field_seen-observe k (arr xs) s h =
      ap (λ (fs : ShapeFields). seen (field_shape k fs))
        (fields-with_elem (observe_items is_integer xs (elem_shape s)) (sample (lit "array") s)
          ∙ fields-sample (lit "array") s)
      ∙ omega arith
  field_seen-observe k (obj fs) s h =
      field_seen-observe_fields k fs (sample (lit "object") s) h
      ∙ ap (λ (gs : ShapeFields). seen (field_shape k gs) + (if has_key k fs then 1 else 0))
          (fields-sample (lit "object") s)

  observe_all-seen :
      (k : Str) (vs : List Json) (s : Shape)
      → All IsMap vs
      → (seen (observe_all is_integer vs s) ≡ seen s + length vs)
        × (field_seen k (observe_all is_integer vs s) ≡ field_seen k s + count_with k vs)
  unfolding observe_all count_with
  observe_all-seen k [] s h = (omega arith, omega arith)
  observe_all-seen k (v ∷ vs) s (h, hs) =
      let (all, with_k) = observe_all-seen k vs (observe is_integer v s) hs in
      (omega (arith, all, seen-observe v s), omega (arith, with_k, field_seen-observe k v s h))

-- After a recording of payloads whose objects have different keys, a field is described as optional
-- just if it was in fewer payloads than there were.
pub observe_all-optional :
    (is_integer : Str → Bool) (k : Str) (vs : List Json)
    → All IsMap vs
    → (is_optional
          (seen (observe_all is_integer vs new_shape))
          (field_seen is_integer k (observe_all is_integer vs new_shape))
        ≡ true)
      ↔ (count_with k vs < length vs)
unfolding field_shape
observe_all-optional is_integer k vs h =
    let (all, with_k) = observe_all-seen is_integer k vs new_shape h in
    (ground (arith, all, with_k), ground (arith, all, with_k))
