-- ===== src/Tests/Segment.antt =====
-- Tests of the segments.
use emarsys_mock.Base.{◌≡◌, refl, true, [], ◌∷◌, pos, any}
use emarsys_mock.Store.Exec.{World, ok, exec}
use emarsys_mock.Store.Contact.Statements.{has_contact}
use emarsys_mock.Store.Segment.{insert_segment_member, set_segment_member}
use emarsys_mock.Store.Segment.Members.{shows, set_segment_member-shows}
use emarsys_mock.Tests.{seeded, start}

-- Segment 1 without members, and contact 1.
abbrev with_segment : World
unfolding seeded
with_segment = record start {
  tables = record seeded {
    contacts = record seeded.contacts {
      rows = record { id = 1; uid = []; created_at = []; updated_at = [] } ∷ [];
      seq = 1;
    };
    segments = record {
      rows = record { id = 1; name = []; criteria = []; created = [] } ∷ [];
      seq = 1;
      members = [];
    };
  };
}

set_run : (set_segment_member (pos 1) (pos 1) true with_segment).0 ≡ ok tt
unfolding seeded with_segment any exec has_contact insert_segment_member set_segment_member
set_run = refl

set_segment_member-shows_example :
    shows (pos 1) (pos 1) (set_segment_member (pos 1) (pos 1) true with_segment).1.tables ≡ true
set_segment_member-shows_example =
    set_segment_member-shows (pos 1) (pos 1) true with_segment (pos 1) (pos 1) set_run
