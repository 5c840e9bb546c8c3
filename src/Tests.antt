-- ===== src/Tests.antt =====
-- Inputs for the tests, and the tests themselves: the theorems applied to them, and runs of the code.
pub mod Contact
pub mod Fault
pub mod Membership
pub mod Event
pub mod Auth
pub mod Segment
pub mod Field
pub mod Record
pub mod Httpx
pub mod Export
pub mod Logging
pub mod Ctl
pub mod Migrate
use emarsys_mock.Base.{
  ℕ, Bool, true, false, Option, none, some, List, [], ◌∷◌, Str, lit, ℤ, pos, negsuc, itoa_ℕ,
}
use emarsys_mock.Store.Tables.{Tables, FieldDef, Choice}
use emarsys_mock.Store.Exec.{Driver, World}
use emarsys_mock.Server.Common.{Settings}

abbrev pub calm : Driver
calm = record {
  fails = λ n. false;
  now = λ n. 50 ∷ 48 ∷ [];
  uid = λ n. some (117 ∷ n ∷ []);
  random = λ n. 0;
}

abbrev pub settings : Settings
settings = record {
  max_batch_contacts = pos 1000;
  export_polls_before_done = pos 2;
  parses_float = λ s. true;
  quoted = λ s. s;
  marshal = λ fields. [];
  parse_time = λ layout s. none;
  in_zone = λ t. [];
  webhook = record { url = lit "http://localhost"; marshal = λ p. some p.external_id };
}

abbrev pub field : ℤ → Str → Str → FieldDef
field id name type = record {
  id = id;
  string_id = name;
  name = name;
  application_type = type;
  is_system = true;
  is_indexed = true;
}

abbrev choice : ℤ → ℤ → Choice
choice field id = record { field_id = field; id = id; label = []; sort = id }

-- Fields 1 and 3 are texts, and 31 is a choice of 1 and 2.
abbrev pub seeded : Tables
unfolding lit
seeded = record {
  fields = record {
    rows =
        field (pos 1) (102 ∷ []) (lit "shorttext")
        ∷ field (pos 3) (101 ∷ []) (lit "longtext")
        ∷ field (pos 31) (111 ∷ []) (lit "singlechoice")
        ∷ [];
    choices = choice (pos 31) (pos 1) ∷ choice (pos 31) (pos 2) ∷ [];
  };
  contacts = record { rows = []; seq = 0; values = []; history = []; history_seq = 0 };
  lists = record { rows = []; seq = 0; members = [] };
  segments = record { rows = []; seq = 0; members = [] };
  events = record { rows = []; seq = 0; triggers = []; trigger_seq = 0 };
  exports = record { rows = []; seq = 0 };
  faults = record { rows = []; seq = 0 };
  users = record { rows = []; nonces = [] };
}

abbrev pub start : World
start = record { tables = seeded; calls = 0; driver = calm }
