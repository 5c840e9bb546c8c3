-- ===== src/Server/Common.antt =====
-- What the handlers share: the server's settings and the answers to store errors.
use emarsys_mock.Webhook.{Sender}
use emarsys_mock.Server.Json.{Json}
use emarsys_mock.Base.{ℕ, List, [], ◌∷◌, Bool, Str, ℤ, Option, none, some, lit, atoi, ◌++◌}
use emarsys_mock.Api.{Failure, error, error_text, code_internal_error}
use emarsys_mock.Store.Exec.{Err, Exec, Result, ok, err, map_err}
use emarsys_mock.Store.Exec.Rules.{
  Reads, Keeps, Atomic, Reads-map_err, Keeps-map_err, Atomic-map_err,
}
use emarsys_mock.Store.Exec.Yields.{Yields, Yields-map_err}
use emarsys_mock.Store.Tables.{Tables}

-- The settings that the handlers read, and functions of the standard library: whether
-- strconv.ParseFloat accepts a text, the %q form of a text, what json.Marshal makes of an object,
-- time.Parse on a layout, and a time in the layout and the zone of the exports.
pub record Settings : Type 0 where
  pub max_batch_contacts : ℤ
  pub export_polls_before_done : ℤ
  pub parses_float : Str → Bool
  pub quoted : Str → Str
  pub marshal : List (Str × Json) → Str
  pub parse_time : Str → Str → Option ℕ
  pub in_zone : ℕ → Str
  pub webhook : Sender

abbrev internal : Err → Failure
internal e = error code_internal_error

-- Server.internalError, at every call that may fail.
unfoldable pub or_internal : {A : Type 0} → Exec Err A → Exec Failure A
or_internal m = map_err internal m

module _ {A : Type 0} (m : Exec Err A) where
  pub Reads-or_internal : Reads m → Reads (or_internal m)
  unfolding or_internal
  Reads-or_internal h = Reads-map_err internal m h

  pub Keeps-or_internal : {P : Tables → Type 0} → Keeps P m → Keeps P (or_internal m)
  unfolding or_internal
  Keeps-or_internal h = Keeps-map_err internal m h

  pub Atomic-or_internal : Atomic m → Atomic (or_internal m)
  unfolding or_internal
  Atomic-or_internal h = Atomic-map_err internal m h

  pub Yields-or_internal :
      {P : Tables → Type 0} {Q : A → Tables → Type 0} → Yields P m Q → Yields P (or_internal m) Q
  unfolding or_internal
  Yields-or_internal h = Yields-map_err internal m h

abbrev number_or : Str → Str → Option ℤ → Result Failure ℤ
number_or name raw none =
    err (error_text code_internal_error (lit "Invalid " ++ name ++ lit ": " ++ raw))
number_or name raw (some id) = ok id

-- pathInt64: a part of the path that must be a number
unfoldable pub path_int64 : Str → Str → Result Failure ℤ
path_int64 name raw = number_or name raw (atoi raw)

abbrev first_parse : Settings → List Str → Str → Option ℕ
first_parse s [] stored = none
first_parse s (layout ∷ layouts) stored = elim (s.parse_time layout stored) [
  | some t ↦ some t
  | none ↦ first_parse s layouts stored
]

-- parseStoredTime
unfoldable pub parse_stored_time : Settings → Str → Option ℕ
parse_stored_time s stored =
    first_parse s
      (lit "2006-01-02T15:04:05.999999999Z07:00"
        ∷ lit "2006-01-02T15:04:05Z07:00"
        ∷ lit "2006-01-02 15:04:05"
        ∷ [])
      stored

-- Server.localTime
unfoldable pub local_time : Settings → Str → Str
local_time s stored = elim (parse_stored_time s stored) [ none ↦ stored | some t ↦ s.in_zone t ]
