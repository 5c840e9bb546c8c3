-- ===== src/Server/Ctl/Forced.antt =====
-- A job that the control plane forces into a state.
use emarsys_mock.Base.{
  ◌≡◌, refl, ap, ◌∙◌, inl, inr, Bool-cases, true, false, Option, none, some, List, [], ◌∷◌, Str, ℤ,
  atoi, any, find_first, if◌then◌else◌,
}
use emarsys_mock.Store.Tables.{Export, ExportStatus, scheduled, in_progress, done, other}
use emarsys_mock.Store.Exec.{
  Err, export_not_ready, Result, ok, err, World, now_string, map_err, lift, pure, ◌>>=◌, next,
  continue, retyped,
}
use emarsys_mock.Store.Export.{
  export_row, is_export, is_done, set_export_status, store_status, forced,
}
use emarsys_mock.Store.Export.Polling.{
  Job, next-Job, update_export-Job, update_export-ok, export_payload-Job,
}
use emarsys_mock.Server.Common.{path_int64}
use emarsys_mock.Server.Csv.{slice_csv}
use emarsys_mock.Server.Download.{handle_export_data, unread}
use emarsys_mock.Server.Ctl.{Control, export_status, require_writable, handle_ctl_export_status}

row_of :
    (id : ℤ) (e : Export) (w : World)
    → Job id e w
    → find_first (is_export id) w.tables.exports.rows ≡ some e
unfolding export_row
row_of id e w h = h.row

find_first-any :
    (id : ℤ) (e : Export) (es : List Export)
    → find_first (is_export id) es ≡ some e
    → any (is_export id) es ≡ true
unfolding find_first any
find_first-any id e [] h = cc
find_first-any id e (r ∷ es) h = elim (Bool-cases (is_export id r)) [
  | inl hit ↦ rw (hit) refl
  | inr miss ↦ rw (miss) (find_first-any id e es (rw (miss) at h))
]

-- The row has the status, and its payload is as it was.
abbrev Forced : ℤ → Export → ExportStatus → Result Err (Unit {0}) × World → Type 0
Forced id e status x =
    (x.0 ≡ ok tt)
    × ((f : Export) × ((Job id f x.1) × ((f.status ≡ status) × (f.payload ≡ e.payload))))

store_status-Forced :
    (id : ℤ) (e : Export) (status : ExportStatus) (ready : Option Str) (w : World)
    → Job id e w
    → Forced id e status (store_status id status ready w)
unfolding ◌>>=◌ pure
store_status-Forced id e status ready w h =
    let hit =
      update_export-ok id (forced status ready) e w h
      ∙ ap ok (find_first-any id e w.tables.exports.rows (row_of id e w h)) in
    let after = update_export-Job id (forced status ready) e w (same_id ready) h in
    rw (hit) (refl, (forced status ready e, (after, (status_of ready, payload_of ready))))
  where
    same_id : (ready : Option Str) (r : Export) → (forced status ready r).id ≡ r.id
    same_id none r = refl
    same_id (some now) r = refl

    status_of : (ready : Option Str) → (forced status ready e).status ≡ status
    status_of none = refl
    status_of (some now) = refl

    payload_of : (ready : Option Str) → (forced status ready e).payload ≡ e.payload
    payload_of none = refl
    payload_of (some now) = refl

set_export_status-Forced :
    (id : ℤ) (e : Export) (status : ExportStatus) (w : World)
    → Job id e w
    → Forced id e status (set_export_status id status w)
unfolding set_export_status ◌>>=◌ now_string
set_export_status-Forced id e done w h =
    store_status-Forced id e done (some (w.driver.now w.calls)) (next w) (next-Job id e w h)
set_export_status-Forced id e scheduled w h = store_status-Forced id e scheduled none w h
set_export_status-Forced id e in_progress w h = store_status-Forced id e in_progress none w h
set_export_status-Forced id e ExportStatus.error w h =
    store_status-Forced id e ExportStatus.error none w h
set_export_status-Forced id e (other text) w h = store_status-Forced id e (other text) none w h

sliced :
    (id : ℤ) (offset limit payload : Str) (status : ExportStatus) (w : World)
    → (continue
        (retyped (unread id) (if is_done status then ok payload else err export_not_ready))
        (λ p. pure (slice_csv p offset limit))
        w).0
      ≡ (if is_done status
          then ok (slice_csv payload offset limit)
          else err (unread id export_not_ready))
unfolding pure
sliced id offset limit payload status w = elim (Bool-cases (is_done status)) [
  | inl d ↦ rw (d) refl
  | inr d ↦ rw (d) refl
]

-- When the control plane of an instance that can be written to forces a job into a state that it knows,
-- and the database does not fail, it answers with that state, and then a request for the data of the job
-- gets the slice of its file that it asks for if the state is "done", and is refused as not finished if not.
pub handle_ctl_export_status-handle_export_data :
    (c : Control) (raw text offset limit : Str) (id : ℤ) (status : ExportStatus) (e : Export)
    (w : World)
    → c.read_only ≡ false
    → atoi raw ≡ some id
    → export_status text ≡ ok status
    → Job id e w
    → let (answer, w') = handle_ctl_export_status c raw (ok text) w in
      (answer ≡ ok (status, id))
      × ((handle_export_data raw offset limit w').0 ≡ (
          if is_done status
          then ok (slice_csv e.payload offset limit)
          else err (unread id export_not_ready)))
unfolding handle_ctl_export_status handle_export_data require_writable path_int64 lift map_err ◌>>=◌
    pure
handle_ctl_export_status-handle_export_data c raw text offset limit id status e w writable number
      known h =
    let (answer, (f, (job, (state, file)))) = set_export_status-Forced id e status w h in
    let payload = export_payload-Job id f _ job in
    let after : (handle_ctl_export_status c raw (ok text) w).1 ≡ (set_export_status id status w).1 =
      rw (writable, number, known, answer) refl in
    (
      rw (writable, number, known, answer) refl,
      rw (after, number, payload, state, file) (sliced id offset limit e.payload status _),
    )
