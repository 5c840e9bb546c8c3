-- ===== src/Server/Segment.antt =====
-- internal/server/handler_segment.go: segments over HTTP.
use emarsys_mock.Base.{
  ℕ, Bool, any, List, map, Str, lit, is_empty, trim_space, ℤ, pos, itoa, int_eq, length,
  if◌then◌else◌, ◌++◌,
}
use emarsys_mock.Api.{Failure, error, error_text, code_missing_key_field, code_internal_error}
use emarsys_mock.Store.Tables.{Segment}
use emarsys_mock.Store.Exec.{Err, no_segment, Exec, ◌>>=◌, pure, raise, lift, map_err}
use emarsys_mock.Store.Segment.{segments, segment, create_segment, delete_segment, segment_members}
use emarsys_mock.Server.Json.{Body, decode_json}
use emarsys_mock.Server.Common.{Settings, or_internal, path_int64, local_time}

abbrev pub unknown_segment : ℤ → Err → Failure
unknown_segment id no_segment =
    error_text code_internal_error (lit "Unknown segment id: " ++ itoa id)
unknown_segment id _ = error code_internal_error

-- lookupSegment
unfoldable pub lookup_segment : Str → Exec Failure Segment
lookup_segment raw = do
  id ← lift (path_int64 (lit "segmentId") raw)
  map_err (unknown_segment id) (segment id)

-- The criteria are the raw text of the JSON value.
pub record SegmentBody : Type 0 where
  pub name : Str
  pub criteria : Str

-- PUT /api/v2/filter
unfoldable pub handle_segment_create : Body SegmentBody → Exec Failure ℕ
handle_segment_create request = do
  body ← lift (decode_json request)
  if is_empty (trim_space body.name)
      then raise (error_text code_missing_key_field (lit "Segment name must not be empty"))
      else or_internal (create_segment body.name body.criteria)

-- GET /api/v2/filter/{segmentId}
unfoldable pub handle_segment_get : Settings → Str → Exec Failure (ℕ × (Str × Str))
handle_segment_get s raw = do
  row ← lookup_segment raw
  pure (row.id, (row.name, local_time s row.created))

-- GET /api/v2/filter
unfoldable pub handle_segment_list : Exec Failure (List (ℕ × Str))
handle_segment_list = do
  rows ← or_internal segments
  pure (map (λ (s : Segment). (s.id, s.name)) rows)

-- GET /api/v2/filter/{segmentId}/delete
unfoldable pub handle_segment_delete : Str → Exec Failure (Unit {0})
handle_segment_delete raw = do row ← lookup_segment raw; or_internal (delete_segment (pos row.id))

-- GET /api/v2/filter/{segmentId}/contacts/count
unfoldable pub handle_segment_count : Str → Exec Failure ℕ
handle_segment_count raw = do
  row ← lookup_segment raw
  members ← or_internal (segment_members (pos row.id))
  pure (length members)

-- GET /api/v2/filter/{segmentId}/contacts/{contactId}
unfoldable pub handle_segment_contact : Str → Str → Exec Failure Bool
handle_segment_contact raw raw_contact = do
  row ← lookup_segment raw
  contact ← lift (path_int64 (lit "contactId") raw_contact)
  members ← or_internal (segment_members (pos row.id))
  pure (any (λ id. int_eq (pos id) contact) members)
