-- ===== src/Server/List/Membership.antt =====
-- What a change of a list's members does, and that it is all or nothing.
use emarsys_mock.Base.{
  ◌≡◌, refl, arith, ℕ, ◌+◌, Bool, not, ◌&&◌, ◌||◌, Option, none, some, List, [], ◌∷◌, ℤ, pos,
  int_eq, int_eq_iff, select, Str, str_key,
}
use emarsys_mock.Api.{Failure}
use emarsys_mock.Store.Tables.{Tables, ListMember, ContactList}
use emarsys_mock.Store.Exec.{World, ok, err, with_tx}
use emarsys_mock.Store.Exec.Rules.{Atomic, Reads, reads_rules, atomic_rules}
use emarsys_mock.Store.Exec.Yields.{Yields, Yields-weaken, Yields-exec, Yields-bind, Yields-with_tx}
use emarsys_mock.Store.List.{on_list, delete_members, clear_list, contact_list, list_or}
use emarsys_mock.Store.List.Members.{holds, IsKeyed, size, holds-select, IsKeyed-select}
use emarsys_mock.Store.List.Counting.{
  members, listed, Rows, add_to_list_counting-Added, remove_from_list-Removed,
}
use emarsys_mock.Server.Json.{Body, FlexibleInt}
use emarsys_mock.Server.Common.{Settings, Reads-or_internal, Atomic-or_internal}
use emarsys_mock.Server.Contact.Atomicity.{Reads-load_field_catalog, Reads-find_contact_ids}
use emarsys_mock.Server.List.{
  Mode, add, remove, replace, change_members, change_list_membership, lookup_list, resolve_one,
  Resolved, resolve_external_ids, ListMembershipBody,
}

-- Who is on a list after a change, where `was` says who was on it and `named` who is in the request.
abbrev pub now_on : Mode → Bool → Bool → Bool → Bool
now_on add own was named = was || named
now_on remove own was named = was && not named
now_on replace own was named = (was && not own) || named

-- How the count of a change relates the sizes of the list before and after it.
abbrev pub Counts : Mode → ℕ → ℕ → ℕ → Type 0
Counts add before after n = after ≡ before + n
Counts remove before after n = after + n ≡ before
Counts replace before after n = after ≡ n

pub record Changed (mode : Mode) (list : ℤ) (ids : List ℕ) (before : List ListMember) (n : ℕ)
    (t : Tables) : Type 0 where
  pub keyed : IsKeyed (members t)
  pub held :
      (l : ℤ) (c : ℕ)
      → holds l c (members t) ≡ now_on mode (int_eq list l) (holds l c before) (listed list ids l c)
  pub counts : Counts mode (size list before) (size list (members t)) n

abbrev cleared : ℤ → List ListMember → List ListMember
cleared list ms = select (λ m. not (on_list list m)) ms

holds-cleared :
    (list l : ℤ) (c : ℕ) (ms : List ListMember)
    → holds l c (cleared list ms) ≡ (holds l c ms && not (int_eq list l))
holds-cleared list l c ms =
    holds-select l c (λ m. not (on_list list m)) (not (int_eq list l)) ms
      λ m h.
        ground
          (arith, int_eq_iff (pos m.list_id) l, int_eq_iff list l, int_eq_iff (pos m.list_id) list)

size-cleared : (list : ℤ) (ms : List ListMember) → size list (cleared list ms) ≡ 0
unfolding size select
size-cleared list [] = refl
size-cleared list (m ∷ ms) = ground (arith, size-cleared list ms)

clear_list-Rows :
    (list : ℤ) (before : List ListMember)
    → Yields (Rows before) (clear_list list) (λ _. Rows (cleared list before))
unfolding clear_list delete_members
clear_list-Rows list before = Yields-exec (delete_members list) λ t a t' r h.
    let same : members t' ≡ cleared list (members t) = ground arith in
    record { same = rw (same, r.same) refl }

change_members-Changed :
    (mode : Mode) (list : ℤ) (ids : List ℕ) (before : List ListMember)
    → IsKeyed before
    → Yields (Rows before) (change_members mode list ids) (Changed mode list ids before)
unfolding change_members
change_members-Changed add list ids before keyed =
    Yields-weaken (add_to_list_counting-Added list ids before keyed)
      λ n t a. record { keyed = a.keyed; held = a.held; counts = a.sized }
change_members-Changed remove list ids before keyed =
    Yields-weaken (remove_from_list-Removed list ids before keyed)
      λ n t a. record { keyed = a.keyed; held = a.held; counts = a.sized }
change_members-Changed replace list ids before keyed =
    Yields-bind _ _ (clear_list-Rows list before) λ _.
      Yields-weaken
        (add_to_list_counting-Added list ids (cleared list before)
          (IsKeyed-select (λ m. not (on_list list m)) before keyed))
        λ n t a. record {
          keyed = a.keyed;
          held = λ l c. rw (a.held l c, holds-cleared list l c before);
          counts = rw (a.sized, size-cleared list before) (omega arith);
        }

-- A change of a list's members, run as the transaction that the handler runs: when it returns n, the
-- contacts on every list are exactly those that the mode asks for (with `add` the ones before and the
-- named, with `remove` the ones before that are not named, with `replace` on this list only the named),
-- no row is there twice if none was, and n is the growth of the list, its loss, or its new size.
pub change_members-Changes :
    (mode : Mode) (list : ℤ) (ids : List ℕ) (w : World) (n : ℕ)
    → IsKeyed (members w.tables)
    → (with_tx (change_members mode list ids) w).0 ≡ ok n
    → Changed mode list ids (members w.tables) n (with_tx (change_members mode list ids) w).1.tables
change_members-Changes mode list ids w n keyed h =
    (Yields-with_tx _ (change_members-Changed mode list ids (members w.tables) keyed)).at w n
      (record { same = refl }) h

Reads-list_or : (row : Option ContactList) → Reads (list_or row)
Reads-list_or none = search reads_rules
Reads-list_or (some l) = search reads_rules

Reads-contact_list : (id : ℤ) → Reads (contact_list id)
unfolding contact_list
Reads-contact_list id = search (reads_rules, Reads-list_or)

pub Reads-lookup_list : (raw : Str) → Reads (lookup_list raw)
unfolding lookup_list
Reads-lookup_list raw = search (reads_rules, Reads-contact_list)

Reads-resolve_one : (key : ℤ) (r : Resolved) (value : Str) → Reads (resolve_one key r value)
unfolding resolve_one
Reads-resolve_one key r value = search (reads_rules, Reads-find_contact_ids)

pub Reads-resolve_external_ids :
    (s : Settings) (key_id : FlexibleInt) (values : List Str)
    → Reads (resolve_external_ids s key_id values)
unfolding resolve_external_ids
Reads-resolve_external_ids s key_id values =
    search (reads_rules, Reads-or_internal, Reads-load_field_catalog, Reads-resolve_one) depth 14

Atomic-change_list_membership :
    (s : Settings) (mode : Mode) (raw : Str) (request : Body ListMembershipBody)
    → Atomic (change_list_membership s mode raw request)
unfolding change_list_membership
Atomic-change_list_membership s mode raw request =
    search
      (atomic_rules, Atomic-or_internal, reads_rules, Reads-lookup_list, Reads-resolve_external_ids)
      depth 14

-- A change of a list's members that is answered with a failure, whichever check or database call
-- failed, leaves every table as it was.
pub change_list_membership-undone :
    (s : Settings) (mode : Mode) (raw : Str) (request : Body ListMembershipBody) (w : World)
    (f : Failure)
    → (change_list_membership s mode raw request w).0 ≡ err f
    → (change_list_membership s mode raw request w).1.tables ≡ w.tables
change_list_membership-undone s mode raw request w f h =
    (Atomic-change_list_membership s mode raw request).at w f h
