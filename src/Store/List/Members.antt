-- ===== src/Store/List/Members.antt =====
-- Who is on a list, row by row.
use emarsys_mock.Base.{
  ◌≡◌, refl, inl, inr, Bool-cases, arith, ℕ, ◌+◌, Bool, true, false, not, ◌&&◌, ◌||◌, List, [], ◌∷◌,
  ◌++◌, ℤ, pos, int_eq_iff, select, any, length, select-append, length-append,
}
use emarsys_mock.Store.Tables.{ListMember}
use emarsys_mock.Store.List.{on_list, is_row, count_if}

-- Whether a contact is on a list.
unfoldable pub holds : ℤ → ℕ → List ListMember → Bool
holds list contact ms = any (is_row list contact) ms

-- The primary key of contact_list_members: no row is there twice.
abbrev pub IsKeyed : List ListMember → Type 0
IsKeyed [] = Unit
IsKeyed (m ∷ ms) = (holds (pos m.list_id) m.contact_id ms ≡ false) × IsKeyed ms

-- The number of rows of a list.
unfoldable pub size : ℤ → List ListMember → ℕ
size list ms = length (select (on_list list) ms)

pub holds-append :
    (list : ℤ) (c : ℕ) (ms ns : List ListMember)
    → holds list c (ms ++ ns) ≡ (holds list c ms || holds list c ns)
unfolding holds any
holds-append list c [] ns = refl
holds-append list c (m ∷ ms) ns = ground (arith, holds-append list c ms ns)

pub holds-select :
    (list : ℤ) (c : ℕ) (p : ListMember → Bool) (q : Bool) (ms : List ListMember)
    → ((m : ListMember) → is_row list c m ≡ true → p m ≡ q)
    → holds list c (select p ms) ≡ (holds list c ms && q)
unfolding holds any select
holds-select list c p q [] h = refl
holds-select list c p q (m ∷ ms) h = ground (arith, h m, holds-select list c p q ms h)

holds-select_none :
    (list : ℤ) (c : ℕ) (p : ListMember → Bool) (ms : List ListMember)
    → holds list c ms ≡ false
    → holds list c (select p ms) ≡ false
unfolding holds any select
holds-select_none list c p [] h = refl
holds-select_none list c p (m ∷ ms) h = ground (arith, holds-select_none list c p ms)

pub IsKeyed-select :
    (p : ListMember → Bool) (ms : List ListMember) → IsKeyed ms → IsKeyed (select p ms)
unfolding select
IsKeyed-select p [] h = tt
IsKeyed-select p (m ∷ ms) (h, hs) =
    ground (arith, IsKeyed-select p ms hs, holds-select_none (pos m.list_id) m.contact_id p ms h)

pub IsKeyed-append :
    (ms : List ListMember) (n : ListMember)
    → IsKeyed ms
    → holds (pos n.list_id) n.contact_id ms ≡ false
    → IsKeyed (ms ++ n ∷ [])
unfolding holds any
IsKeyed-append [] n h new = (refl, tt)
IsKeyed-append (m ∷ ms) n (h, hs) new =
    ground (arith, IsKeyed-append ms n hs, holds-append (pos m.list_id) m.contact_id ms (n ∷ []))

pub size-append :
    (list : ℤ) (ms ns : List ListMember) → size list (ms ++ ns) ≡ size list ms + size list ns
unfolding size
size-append list ms ns = rw (select-append (on_list list) ms ns, length-append) refl

-- Taking a row of a keyed table away makes its list one shorter.
pub size-delete :
    (list : ℤ) (c : ℕ) (ms : List ListMember)
    → IsKeyed ms
    → count_if (size list (select (λ m. not (is_row list c m)) ms)) (holds list c ms) ≡ size list ms
unfolding size holds any select
size-delete list c [] h = refl
size-delete list c (m ∷ ms) (h, hs) = elim (Bool-cases (is_row list c m)) [
  | inl e ↦
      let same : pos m.list_id ≡ list = (int_eq_iff (pos m.list_id) list).0 (ground arith) in
      let same' : m.contact_id ≡ c = ground arith in
      let gone : holds list c ms ≡ false = rw (← same, ← same') h in
      ground (arith, size-delete list c ms hs)
  | inr e ↦ ground (arith, size-delete list c ms hs)
]
