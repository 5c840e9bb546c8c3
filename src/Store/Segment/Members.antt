-- ===== src/Store/Segment/Members.antt =====
-- What setting a member does to what is read of the members.
use emarsys_mock.Base.{
  ◌≡◌, refl, ◌∙◌, inl, inr, Bool-cases, arith, ℕ, Bool, true, false, not, ◌&&◌, ◌||◌, Option, none,
  some, List, [], ◌∷◌, ◌++◌, map, ℤ, pos, negsuc, int_eq, int_eq_iff, if◌then◌else◌, select, any,
}
use emarsys_mock.Store.Tables.{Tables, SegmentMember}
use emarsys_mock.Store.Exec.{World, ok}
use emarsys_mock.Store.Exec.Yields.{Yields, Yields-exec}
use emarsys_mock.Store.Contact.Statements.{insert_id, sort_ids, has_contact}
use emarsys_mock.Store.Segment.{
  in_segment, is_member_row, is_segment, segment_members_in, delete_segment_member,
  insert_segment_member, set_segment_member,
}

-- Whether a segment has a contact, as the members that are read show it.
abbrev pub shows : ℤ → ℤ → Tables → Bool
shows segment contact t = any (λ i. int_eq (pos i) contact) (segment_members_in segment t)

belongs : ℤ → ℤ → List SegmentMember → Bool
belongs segment contact ms = any (is_member_row segment contact) ms

any-insert_id : (p : ℕ → Bool) (a : ℕ) (xs : List ℕ) → any p (insert_id a xs) ≡ (p a || any p xs)
unfolding any insert_id
any-insert_id p a [] = refl
any-insert_id p a (x ∷ xs) = ground (arith, any-insert_id p a xs)

any-sort_ids : (p : ℕ → Bool) (xs : List ℕ) → any p (sort_ids xs) ≡ any p xs
unfolding any sort_ids
any-sort_ids p [] = refl
any-sort_ids p (x ∷ xs) = rw (any-insert_id p x (sort_ids xs), any-sort_ids p xs)

any-members :
    (segment contact : ℤ) (ms : List SegmentMember)
    → any
        (λ i. int_eq (pos i) contact)
        (map (λ (m : SegmentMember). m.contact_id) (select (in_segment segment) ms))
      ≡ belongs segment contact ms
unfolding any select belongs
any-members segment contact [] = refl
any-members segment contact (m ∷ ms) = ground (arith, any-members segment contact ms)

shows-belongs :
    (segment contact : ℤ) (t : Tables)
    → shows segment contact t ≡ belongs segment contact t.segments.members
unfolding segment_members_in
shows-belongs segment contact t =
    any-sort_ids (λ i. int_eq (pos i) contact) _ ∙ any-members segment contact t.segments.members

abbrev same_cell : ℤ → ℤ → ℤ → ℤ → Bool
same_cell segment contact s c = int_eq segment s && int_eq contact c

belongs-select :
    (segment contact s c : ℤ) (ms : List SegmentMember)
    → belongs s c (select (λ m. not (is_member_row segment contact m)) ms)
      ≡ (if same_cell segment contact s c then false else belongs s c ms)
unfolding any select belongs
belongs-select segment contact s c [] = ground arith
belongs-select segment contact s c (m ∷ ms) = ground (
  arith,
  belongs-select segment contact s c ms,
  int_eq_iff segment s,
  int_eq_iff contact c,
  int_eq_iff (pos m.segment_id) segment,
  int_eq_iff (pos m.contact_id) contact,
  int_eq_iff (pos m.segment_id) s,
  int_eq_iff (pos m.contact_id) c,
)

belongs-append :
    (s c : ℤ) (ms : List SegmentMember) (m : SegmentMember)
    → belongs s c (ms ++ m ∷ []) ≡ (belongs s c ms || is_member_row s c m)
unfolding any belongs
belongs-append s c [] m = ground arith
belongs-append s c (n ∷ ms) m = ground (arith, belongs-append s c ms m)

belongs-already :
    (segment contact s c : ℤ) (ms : List SegmentMember)
    → belongs segment contact ms ≡ true
    → belongs s c ms ≡ (if same_cell segment contact s c then true else belongs s c ms)
belongs-already segment contact s c ms h = elim (Bool-cases (same_cell segment contact s c)) [
  | inl e ↦
      let same : segment ≡ s = (int_eq_iff segment s).0 (ground arith) in
      let same' : contact ≡ c = (int_eq_iff contact c).0 (ground arith) in
      let here : belongs s c ms ≡ true = rw (← same, ← same') h in rw (e, here)
  | inr e ↦ rw (e)
]

insert-belongs :
    (segment contact s c : ℤ) (t t' : Tables) {a : Unit {0}}
    → insert_segment_member segment contact t ≡ some (a, t')
    → belongs s c t'.segments.members
      ≡ (if same_cell segment contact s c then true else belongs s c t.segments.members)
unfolding insert_segment_member belongs
insert-belongs (negsuc n) contact s c t t' h = cc
insert-belongs (pos n) (negsuc m) s c t t' h = cc
insert-belongs (pos n) (pos m) s c t t' h =
    elim (Bool-cases (belongs (pos n) (pos m) t.segments.members)) [
      | inl e ↦
          let done : ◌≡◌ {A = Option (Unit {0} × Tables)} (some (tt, t)) (some (_, t')) =
            rw (e) at h in
          let same : t ≡ t' = ground arith in
          rw (← same) (belongs-already (pos n) (pos m) s c t.segments.members e)
      | inr e ↦ elim (Bool-cases (any (is_segment (pos n)) t.segments.rows && has_contact m t)) [
        | inl f ↦
            let done = rw (e, f) at h in
            let new : SegmentMember = record { segment_id = n; contact_id = m } in
            let rows : t'.segments.members ≡ t.segments.members ++ new ∷ [] = ground arith in
            rw (rows) (belongs-append s c t.segments.members new ∙ ground arith)
        | inr f ↦
            let no : ◌≡◌ {A = Option (Unit {0} × Tables)} none (some (_, t')) = rw (e, f) at h in cc
      ]
    ]

record Members (b : ℤ → ℤ → Bool) (t : Tables) : Type 0 where
  pub at : (s c : ℤ) → belongs s c t.segments.members ≡ b s c

set_segment_member-Members :
    (segment contact : ℤ) (member : Bool) (b : ℤ → ℤ → Bool)
    → Yields
        (Members b)
        (set_segment_member segment contact member)
        (λ _. Members (λ s c. if same_cell segment contact s c then member else b s c))
unfolding set_segment_member delete_segment_member
set_segment_member-Members segment contact true b =
    Yields-exec (insert_segment_member segment contact)
      λ t a t' h e. record { at = λ s c. insert-belongs segment contact s c t t' e ∙ rw (h.at s c) }
set_segment_member-Members segment contact false b =
    Yields-exec (delete_segment_member segment contact) λ t a t' h e.
      let rows : t'.segments.members
          ≡ select (λ m. not (is_member_row segment contact m)) t.segments.members =
        ground arith in
      record {
        at = λ s c.
            rw (rows) (belongs-select segment contact s c t.segments.members ∙ rw (h.at s c));
      }

-- When setting a member of a segment returns, the members that are read of the segment have the contact
-- just if it was to be a member; every other contact, and every other segment, reads as before.
pub set_segment_member-shows :
    (segment contact : ℤ) (member : Bool) (w : World) (s c : ℤ)
    → (set_segment_member segment contact member w).0 ≡ ok tt
    → shows s c (set_segment_member segment contact member w).1.tables
      ≡ (if same_cell segment contact s c then member else shows s c w.tables)
set_segment_member-shows segment contact member w s c h =
    let t' = (set_segment_member segment contact member w).1.tables in
    shows-belongs s c t'
    ∙ ((set_segment_member-Members segment contact member
            (λ s c. belongs s c w.tables.segments.members)).at
          w tt (record { at = λ s c. refl }) h).at
        s c
    ∙ rw (shows-belongs s c w.tables)
