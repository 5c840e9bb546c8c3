-- ===== src/Record/Shape.antt =====
-- internal/record/shape.go: the structure that many payloads share.
pub mod Kept
pub mod Optional
use emarsys_mock.Base.{
  ℕ, zero, suc, ◌+◌, Bool, true, false, not, ◌&&◌, ◌||◌, Option, none, some, List, [], ◌∷◌, ◌++◌,
  map, Str, lit, str_eq, str_leb, any, length, ltb, itoa_ℕ, select, if◌then◌else◌,
}
use emarsys_mock.Server.Json.{
  Json, null, str, num, bool, arr, obj, Items, nil, cons, Fields, end, field,
}

-- A shape has the kinds that were seen, the shapes of an object's fields and of an array's elements,
-- and how many samples there were. The maps are lists, in the order in which their keys came.
mutual
  pub data Shape : Type 0 where
    shape : List Str → ShapeFields → Elem → ℕ → Shape

  pub data ShapeFields : Type 0 where
    no_fields : ShapeFields
    shape_field : Str → Shape → ShapeFields → ShapeFields

  pub data Elem : Type 0 where
    no_elem : Elem
    elem_of : Shape → Elem

abbrev pub new_shape : Shape
new_shape = shape [] no_fields no_elem 0

abbrev pub seen : Shape → ℕ
seen (shape kinds fs e n) = n

abbrev pub kinds_of : Shape → List Str
kinds_of (shape kinds fs e n) = kinds

abbrev pub fields_of : Shape → ShapeFields
fields_of (shape kinds fs e n) = fs

-- s.Fields[key], a new one where there is none
unfoldable pub field_shape : Str → ShapeFields → Shape
field_shape key no_fields = new_shape
field_shape key (shape_field k s fs) =
    let rest = field_shape key fs in if str_eq k key then s else rest

unfoldable pub put_shape : Str → Shape → ShapeFields → ShapeFields
put_shape key s no_fields = shape_field key s no_fields
put_shape key s (shape_field k t fs) =
    let rest = put_shape key s fs in
    if str_eq k key then shape_field k s fs else shape_field k t rest

abbrev pub add_kind : Str → List Str → List Str
add_kind kind kinds = if any (str_eq kind) kinds then kinds else kinds ++ kind ∷ []

-- Seen++, with the kind that was seen
abbrev pub sample : Str → Shape → Shape
sample kind (shape kinds fs e n) = shape (add_kind kind kinds) fs e (n + 1)

abbrev pub elem_shape : Shape → Shape
elem_shape (shape kinds fs no_elem n) = new_shape
elem_shape (shape kinds fs (elem_of e) n) = e

abbrev pub with_elem : Shape → Shape → Shape
with_elem e (shape kinds fs _ n) = shape kinds fs (elem_of e) n

abbrev pub with_field : Str → Shape → Shape → Shape
with_field key t (shape kinds fs e n) = shape kinds (put_shape key t fs) e n

-- Whether a number's text stands for an integer, a float64 that is its own int64, is a parameter.
module _ (is_integer : Str → Bool) where
  unfoldable mutual
    -- Observe
    pub observe : Json → Shape → Shape
    observe null s = sample (lit "null") s
    observe (str v) s = sample (lit "string") s
    observe (num n) s = sample (if is_integer n then lit "integer" else lit "number") s
    observe (bool b) s = sample (lit "boolean") s
    observe (arr xs) s = with_elem (observe_items xs (elem_shape s)) (sample (lit "array") s)
    observe (obj fs) s = observe_fields fs (sample (lit "object") s)

    pub observe_items : Items → Shape → Shape
    observe_items nil e = e
    observe_items (cons x xs) e = observe_items xs (observe x e)

    pub observe_fields : Fields → Shape → Shape
    observe_fields end s = s
    observe_fields (field k v fs) s =
        observe_fields fs (with_field k (observe v (field_shape k (fields_of s))) s)
