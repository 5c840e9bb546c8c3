-- ===== src/Store/List/Counting.antt =====
-- The changes of a list: who is on it afterwards, and that the count is the change of its size.
use emarsys_mock.Base.{
  ◌≡◌, refl, inl, inr, Bool-cases, arith, ℕ, ◌+◌, Bool, true, false, not, ◌&&◌, ◌||◌, Option, none,
  some, List, [], ◌∷◌, ◌++◌, ℤ, pos, negsuc, int_eq, int_eq_iff, select, any, ◌==◌, ==_refl, Str,
}
use emarsys_mock.Store.Tables.{Tables, ListMember}
use emarsys_mock.Store.Exec.Rules.{Reads-now_string}
use emarsys_mock.Store.Exec.Yields.{
  Yields, Yields-pure, Yields-of-Reads, Yields-weaken, Yields-strengthen, Yields-exec, Yields-bind,
  Yields-fold_each,
}
use emarsys_mock.Store.Contact.Statements.{insert_member, is_member, has_list, has_contact}
use emarsys_mock.Store.List.{
  is_row, delete_member, count_if, remove_one, remove_from_list, add_one, add_to_list_counting,
}
use emarsys_mock.Store.List.Members.{
  holds, IsKeyed, size, holds-append, holds-select, IsKeyed-select, IsKeyed-append, size-append,
  size-delete,
}

abbrev pub members : Tables → List ListMember
members t = t.lists.members

-- The contact is one of some on the list.
unfoldable pub listed : ℤ → List ℕ → ℤ → ℕ → Bool
listed list contacts l c = int_eq list l && any (λ i. i == c) contacts

-- What an INSERT of a member does.
record Inserted (list : ℤ) (contact : ℕ) (t t' : Tables) (hit : Bool) : Type 0 where
  pub keyed : IsKeyed (members t')
  pub held :
      (l : ℤ) (c : ℕ)
      → holds l c (members t') ≡ (holds l c (members t) || (int_eq list l && contact == c))
  pub sized : size list (members t') ≡ count_if (size list (members t)) hit

member : ℕ → ℕ → Str → ListMember
member list contact now = record { list_id = list; contact_id = contact; added_at = now }

holds-already :
    (list l : ℤ) (contact c : ℕ) (ms : List ListMember)
    → holds list contact ms ≡ true
    → holds l c ms ≡ (holds l c ms || (int_eq list l && contact == c))
holds-already list l contact c ms h = elim (Bool-cases (int_eq list l && contact == c)) [
  | inl e ↦
      let same : list ≡ l = (int_eq_iff list l).0 (ground arith) in
      let same' : contact ≡ c = ground arith in
      let here : holds l c ms ≡ true = rw (← same, ← same') h in rw (here)
  | inr e ↦ ground arith
]

holds-member :
    (list contact : ℕ) (now : Str) (l : ℤ) (c : ℕ) (ms : List ListMember)
    → holds l c (ms ++ member list contact now ∷ [])
      ≡ (holds l c ms || (int_eq (pos list) l && contact == c))
unfolding holds any member
holds-member list contact now l c ms =
    ground (arith, holds-append l c ms (member list contact now ∷ []))

size-member :
    (list contact : ℕ) (now : Str) (ms : List ListMember)
    → size (pos list) (ms ++ member list contact now ∷ []) ≡ size (pos list) ms + 1
unfolding size select member
size-member list contact now ms =
    ground (arith, size-append (pos list) ms (member list contact now ∷ []), ==_refl list)

insert_member-Inserted :
    (list : ℤ) (contact : ℕ) (now : Str) (t t' : Tables) (hit : Bool)
    → IsKeyed (members t)
    → insert_member list contact now t ≡ some (hit, t')
    → Inserted list contact t t' hit
unfolding insert_member member holds
insert_member-Inserted (negsuc n) contact now t t' hit keyed h = cc
insert_member-Inserted (pos list) contact now t t' hit keyed h =
    elim (Bool-cases (is_member list contact (members t))) [
      | inl e ↦
          let done : ◌≡◌ {A = Option (Bool × Tables)} (some (false, t)) (some (hit, t')) =
            rw (e) at h in
          let same : t ≡ t' = ground arith in
          let missed : hit ≡ false = ground arith in
          rw (missed, ← same)
            (record {
              keyed = keyed;
              held = λ l c. holds-already (pos list) l contact c (members t) e;
              sized = refl;
            })
      | inr e ↦ elim (Bool-cases (has_list list t && has_contact contact t)) [
        | inl f ↦
            let done = rw (e, f) at h in
            let same : members t' ≡ members t ++ member list contact now ∷ [] = ground arith in
            let hits : hit ≡ true = ground arith in
            rw (hits) (record {
              keyed = rw (same) (IsKeyed-append (members t) (member list contact now) keyed e);
              held = λ l c. rw (same) (holds-member list contact now l c (members t));
              sized = rw (same) (size-member list contact now (members t));
            })
        | inr f ↦
            let no : ◌≡◌ {A = Option (Bool × Tables)} none (some (hit, t')) = rw (e, f) at h in cc
      ]
    ]

record Deleted (list : ℤ) (contact : ℕ) (t t' : Tables) (hit : Bool) : Type 0 where
  pub keyed : IsKeyed (members t')
  pub held :
      (l : ℤ) (c : ℕ)
      → holds l c (members t') ≡ (holds l c (members t) && not (int_eq list l && contact == c))
  pub sized : count_if (size list (members t')) hit ≡ size list (members t)

holds-delete :
    (list l : ℤ) (contact c : ℕ) (ms : List ListMember)
    → holds l c (select (λ m. not (is_row list contact m)) ms)
      ≡ (holds l c ms && not (int_eq list l && contact == c))
holds-delete list l contact c ms =
    holds-select l c (λ m. not (is_row list contact m)) (not (int_eq list l && contact == c)) ms
      λ m h.
        ground
          (arith, int_eq_iff (pos m.list_id) l, int_eq_iff list l, int_eq_iff (pos m.list_id) list)

delete_member-Deleted :
    (list : ℤ) (contact : ℕ) (t t' : Tables) (hit : Bool)
    → IsKeyed (members t)
    → delete_member list contact t ≡ some (hit, t')
    → Deleted list contact t t' hit
unfolding delete_member holds
delete_member-Deleted list contact t t' hit keyed h =
    let same : members t' ≡ select (λ m. not (is_row list contact m)) (members t) = ground arith in
    let hits : hit ≡ holds list contact (members t) = ground arith in
    record {
      keyed = rw (same) (IsKeyed-select (λ m. not (is_row list contact m)) (members t) keyed);
      held = λ l c. rw (same) (holds-delete list l contact c (members t));
      sized = rw (same, hits) (size-delete list contact (members t) keyed);
    }

module _ (list : ℤ) (before : List ListMember) (all : List ℕ) where
  -- The loop of AddToListCounting, with some contacts to go and a count.
  record Adding (left : List ℕ) (n : ℕ) (t : Tables) : Type 0 where
    pub keyed : IsKeyed (members t)
    pub held :
        (l : ℤ) (c : ℕ)
        → (holds l c (members t) || listed list left l c)
          ≡ (holds l c before || listed list all l c)
    pub sized : size list (members t) ≡ size list before + n

  add_one-Adding :
      (now : Str) (x : ℕ) (left : List ℕ) (n : ℕ)
      → Yields (Adding (x ∷ left) n) (add_one list now n x) (Adding left)
  unfolding add_one listed any
  add_one-Adding now x left n =
      Yields-bind _ _
        (Yields-exec (insert_member list x now) {Q = λ hit t. Adding left (count_if n hit) t}
          λ t hit t' a h.
            let i = insert_member-Inserted list x now t t' hit a.keyed h in
            record {
              keyed = i.keyed;
              held = λ l c. ground (arith, a.held l c, i.held l c);
              sized = ground (arith, a.sized, i.sized);
            })
        λ hit. Yields-pure _ (λ t h. h)

  record Removing (left : List ℕ) (n : ℕ) (t : Tables) : Type 0 where
    pub keyed : IsKeyed (members t)
    pub held :
        (l : ℤ) (c : ℕ)
        → (holds l c (members t) && not (listed list left l c))
          ≡ (holds l c before && not (listed list all l c))
    pub sized : size list (members t) + n ≡ size list before

  remove_one-Removing :
      (x : ℕ) (left : List ℕ) (n : ℕ)
      → Yields (Removing (x ∷ left) n) (remove_one list n x) (Removing left)
  unfolding remove_one listed any
  remove_one-Removing x left n =
      Yields-bind _ _
        (Yields-exec (delete_member list x) {Q = λ hit t. Removing left (count_if n hit) t}
          λ t hit t' a h.
            let i = delete_member-Deleted list x t t' hit a.keyed h in
            record {
              keyed = i.keyed;
              held = λ l c. ground (arith, a.held l c, i.held l c);
              sized = ground (arith, a.sized, i.sized);
            })
        λ hit. Yields-pure _ (λ t h. h)

-- What adding contacts leaves, with the count that it returns.
pub record Added (list : ℤ) (contacts : List ℕ) (before : List ListMember) (n : ℕ) (t : Tables)
    : Type 0 where
  pub keyed : IsKeyed (members t)
  pub held :
      (l : ℤ) (c : ℕ) → holds l c (members t) ≡ (holds l c before || listed list contacts l c)
  pub sized : size list (members t) ≡ size list before + n

pub record Removed (list : ℤ) (contacts : List ℕ) (before : List ListMember) (n : ℕ) (t : Tables)
    : Type 0 where
  pub keyed : IsKeyed (members t)
  pub held :
      (l : ℤ) (c : ℕ) → holds l c (members t) ≡ (holds l c before && not (listed list contacts l c))
  pub sized : size list (members t) + n ≡ size list before

-- Tables with the given rows of contact_list_members.
pub record Rows (ms : List ListMember) (t : Tables) : Type 0 where
  pub same : members t ≡ ms

pub add_to_list_counting-Added :
    (list : ℤ) (contacts : List ℕ) (before : List ListMember)
    → IsKeyed before
    → Yields (Rows before) (add_to_list_counting list contacts) (Added list contacts before)
unfolding add_to_list_counting listed any
add_to_list_counting-Added list contacts before keyed =
    Yields-bind _ _ (Yields-of-Reads Reads-now_string) λ now.
      Yields-weaken
        (Yields-strengthen
          (Yields-fold_each (add_one list now) (Adding list before contacts)
            (λ x left n. add_one-Adding list before contacts now x left n) contacts 0)
          λ t r. record {
            keyed = rw (r.same) keyed;
            held = λ l c. rw (r.same) refl;
            sized = rw (r.same) (omega arith);
          })
        λ n t a. record {
          keyed = a.keyed;
          held = λ l c. ground (arith, a.held l c);
          sized = a.sized;
        }

pub remove_from_list-Removed :
    (list : ℤ) (contacts : List ℕ) (before : List ListMember)
    → IsKeyed before
    → Yields (Rows before) (remove_from_list list contacts) (Removed list contacts before)
unfolding remove_from_list listed any
remove_from_list-Removed list contacts before keyed =
    Yields-weaken
      (Yields-strengthen
        (Yields-fold_each (remove_one list) (Removing list before contacts)
          (λ x left n. remove_one-Removing list before contacts x left n) contacts 0)
        λ t r. record {
          keyed = rw (r.same) keyed;
          held = λ l c. rw (r.same) refl;
          sized = rw (r.same) (omega arith);
        })
      λ n t a. record { keyed = a.keyed; held = λ l c. ground (arith, a.held l c); sized = a.sized }
