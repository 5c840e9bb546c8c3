-- ===== src/Store/Tables.antt =====
-- The tables of internal/store/migrations/*.sql, a list of rows each, with the counter of each
-- AUTOINCREMENT key. Times are the RFC 3339 texts that the columns hold.
use emarsys_mock.Base.{ℕ, Bool, Option, List, Str, ℤ}

pub record FieldDef : Type 0 where
  pub id : ℤ
  pub string_id : Str
  pub name : Str
  pub application_type : Str
  pub is_system : Bool
  pub is_indexed : Bool

-- A row of field_choices: the choice and the field that it belongs to.
pub record Choice : Type 0 where
  pub field_id : ℤ
  pub id : ℤ
  pub label : Str
  pub sort : ℤ

pub record Contact : Type 0 where
  pub id : ℕ
  pub uid : Str
  pub created_at : Str
  pub updated_at : Str

pub record ContactValue : Type 0 where
  pub contact_id : ℕ
  pub field_id : ℤ
  pub value : Str
  pub updated_at : Str

pub record FieldChange : Type 0 where
  pub id : ℕ
  pub contact_id : ℕ
  pub field_id : ℤ
  pub old_value : Option Str
  pub new_value : Str
  pub changed_at : Str
  pub source : Str

pub record ContactList : Type 0 where
  pub id : ℕ
  pub name : Str
  pub created : Str

pub record ListMember : Type 0 where
  pub list_id : ℕ
  pub contact_id : ℕ
  pub added_at : Str

pub record Segment : Type 0 where
  pub id : ℕ
  pub name : Str
  pub criteria : Str
  pub created : Str

pub record SegmentMember : Type 0 where
  pub segment_id : ℕ
  pub contact_id : ℕ

pub record Event : Type 0 where
  pub id : ℕ
  pub name : Str
  pub created : Str

pub record EventTrigger : Type 0 where
  pub id : ℕ
  pub event_id : ℕ
  pub contact_id : Option ℕ
  pub external_id : Str
  pub payload : Str
  pub event_time : Option Str
  pub trigger_id : Option Str
  pub received_at : Str

-- The four status literals of internal/store/export.go; the dashboard can store any other text.
pub data ExportStatus : Type 0 where
  scheduled in_progress done error : ExportStatus
  other : Str → ExportStatus

pub record Export : Type 0 where
  pub id : ℕ
  pub type : Str
  pub status : ExportStatus
  pub params : Str
  pub created_at : Str
  pub ready_at : Option Str
  pub poll_count : ℤ
  pub polls_before_done : ℤ
  pub file_name : Str
  pub payload : Str

pub record FaultRule : Type 0 where
  pub id : ℕ
  pub enabled : Bool
  pub match_method : Str
  pub match_path_pattern : Str
  pub match_body_contains : Str
  pub http_status : ℤ
  pub reply_code : ℤ
  pub reply_text : Str
  -- in units of 2 ^ -53, the grain of rand.Float64, rounded up
  pub probability : ℕ
  pub remaining_hits : Option ℤ
  pub retry_after : Option ℤ
  pub created_at : Str

pub record ApiUser : Type 0 where
  pub id : ℕ
  pub username : Str
  pub secret : Str
  pub client_id : Str
  pub client_secret : Str
  pub permissions : List Str

-- contacts, contact_values and contact_field_history
pub record ContactTables : Type 0 where
  pub rows : List Contact
  pub seq : ℕ
  pub values : List ContactValue
  pub history : List FieldChange
  pub history_seq : ℕ

-- fields and field_choices
pub record FieldTables : Type 0 where
  pub rows : List FieldDef
  pub choices : List Choice

pub record ListTables : Type 0 where
  pub rows : List ContactList
  pub seq : ℕ
  pub members : List ListMember

pub record SegmentTables : Type 0 where
  pub rows : List Segment
  pub seq : ℕ
  pub members : List SegmentMember

pub record EventTables : Type 0 where
  pub rows : List Event
  pub seq : ℕ
  pub triggers : List EventTrigger
  pub trigger_seq : ℕ

pub record ExportTables : Type 0 where
  pub rows : List Export
  pub seq : ℕ

pub record FaultTables : Type 0 where
  pub rows : List FaultRule
  pub seq : ℕ

pub record UserTables : Type 0 where
  pub rows : List ApiUser
  pub nonces : List Str

pub record Tables : Type 0 where
  pub fields : FieldTables
  pub contacts : ContactTables
  pub lists : ListTables
  pub segments : SegmentTables
  pub events : EventTables
  pub exports : ExportTables
  pub faults : FaultTables
  pub users : UserTables
