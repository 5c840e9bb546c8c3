-- ===== src/Store/Segment.antt =====
-- internal/store/segment.go: segments and the members that they are given by hand.
pub mod Members
use emarsys_mock.Base.{
  ℕ, ◌+◌, Bool, true, false, not, ◌&&◌, Option, none, some, List, [], ◌∷◌, ◌++◌, map, Str, lit,
  is_empty, ℤ, pos, negsuc, int_eq, if◌then◌else◌, select, any, find_first, ◌==◌,
}
use emarsys_mock.Store.Tables.{Tables, Segment, SegmentMember}
use emarsys_mock.Store.Exec.{
  Err, no_segment, Exec, ◌>>=◌, ◌>>◌, pure, raise, query, exec, now_string,
}
use emarsys_mock.Store.Contact.Statements.{sort_ids, has_contact}

unfoldable pub segments : Exec Err (List Segment)
segments = query (λ t. t.segments.rows)

abbrev pub is_segment : ℤ → Segment → Bool
is_segment id s = int_eq (pos s.id) id

unfoldable pub segment_row : ℤ → Tables → Option Segment
segment_row id t = find_first (is_segment id) t.segments.rows

abbrev pub segment_or : Option Segment → Exec Err Segment
segment_or none = raise no_segment
segment_or (some s) = pure s

-- DB.Segment
unfoldable pub segment : ℤ → Exec Err Segment
segment id = do row ← query (segment_row id); segment_or row

-- INSERT INTO segments
unfoldable pub insert_segment : Str → Str → Str → Tables → Option (ℕ × Tables)
insert_segment name criteria now t =
    let id = t.segments.seq + 1 in
    let row : Segment = record { id = id; name = name; criteria = criteria; created = now } in
    some (
      id,
      record t { segments = record t.segments { rows = t.segments.rows ++ row ∷ []; seq = id } },
    )

unfoldable pub create_segment : Str → Str → Exec Err ℕ
create_segment name criteria = do
  now ← now_string
  exec (insert_segment name (if is_empty criteria then lit "{}" else criteria) now)

-- COALESCE(NULLIF(new, ''), old)
abbrev pub or_old : Str → Str → Str
or_old new old = if is_empty new then old else new

abbrev updated : ℤ → Str → Str → Segment → Segment
updated id name criteria s =
    if is_segment id s
    then record s { name = or_old name s.name; criteria = or_old criteria s.criteria }
    else s

unfoldable pub update_segment_row : ℤ → Str → Str → Tables → Option (Bool × Tables)
update_segment_row id name criteria t = some (
  any (is_segment id) t.segments.rows,
  record t {
    segments = record t.segments { rows = map (updated id name criteria) t.segments.rows };
  },
)

unfoldable pub update_segment : ℤ → Str → Str → Exec Err (Unit {0})
update_segment id name criteria = do
  hit ← exec (update_segment_row id name criteria)
  if hit then pure tt else raise no_segment

-- DELETE FROM segments, with the rows of segment_members that refer to it
unfoldable pub delete_segment_row : ℤ → Tables → Option (Bool × Tables)
delete_segment_row id t = some (
  any (is_segment id) t.segments.rows,
  record t {
    segments = record t.segments {
      rows = select (λ s. not (is_segment id s)) t.segments.rows;
      members = select (λ m. not (int_eq (pos m.segment_id) id)) t.segments.members;
    };
  },
)

unfoldable pub delete_segment : ℤ → Exec Err (Unit {0})
delete_segment id = do hit ← exec (delete_segment_row id); if hit then pure tt else raise no_segment

abbrev pub in_segment : ℤ → SegmentMember → Bool
in_segment id m = int_eq (pos m.segment_id) id

-- SELECT contact_id FROM segment_members WHERE segment_id = ? ORDER BY contact_id
unfoldable pub segment_members_in : ℤ → Tables → List ℕ
segment_members_in id t =
    sort_ids (map (λ (m : SegmentMember). m.contact_id) (select (in_segment id) t.segments.members))

unfoldable pub segment_members : ℤ → Exec Err (List ℕ)
segment_members id = query (segment_members_in id)

abbrev pub is_member_row : ℤ → ℤ → SegmentMember → Bool
is_member_row id contact m = in_segment id m && int_eq (pos m.contact_id) contact

-- DELETE FROM segment_members WHERE segment_id = ? AND contact_id = ?
unfoldable pub delete_segment_member : ℤ → ℤ → Tables → Option (Unit {0} × Tables)
delete_segment_member id contact t = some (
  tt,
  record t {
    segments = record t.segments {
      members = select (λ m. not (is_member_row id contact m)) t.segments.members;
    };
  },
)

-- INSERT OR IGNORE INTO segment_members: the segment and the contact must exist.
unfoldable pub insert_segment_member : ℤ → ℤ → Tables → Option (Unit {0} × Tables)
insert_segment_member (pos id) (pos contact) t =
    if any (is_member_row (pos id) (pos contact)) t.segments.members
    then some (tt, t)
    else if any (is_segment (pos id)) t.segments.rows && has_contact contact t
    then some (
      tt,
      record t {
        segments = record t.segments {
          members = t.segments.members ++ record { segment_id = id; contact_id = contact } ∷ [];
        };
      },
    )
    else none
insert_segment_member _ _ t = none

-- SetSegmentMember
unfoldable pub set_segment_member : ℤ → ℤ → Bool → Exec Err (Unit {0})
set_segment_member id contact member =
    if not member
    then exec (delete_segment_member id contact)
    else exec (insert_segment_member id contact)
