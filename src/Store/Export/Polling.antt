-- ===== src/Store/Export/Polling.antt =====
-- How a client sees an export job: what its polls answer and when its data is there.
use emarsys_mock.Base.{
  ◌≡◌, refl, ap, ◌∙◌, inl, inr, arith, ℕ, zero, suc, ◌+◌, ◌-◌, Bool, true, false, Option, none,
  some, List, [], ◌∷◌, ◌++◌, map, ℤ, pos, int_eq, int_lt, plus_one, if◌then◌else◌, any, find_first,
  replicate, take, ltb, Bool-cases,
}
use emarsys_mock.Store.Tables.{Export, ExportStatus, in_progress, done}
use emarsys_mock.Store.Exec.{
  Err, export_not_ready, Result, ok, err, World, next, ◌>>=◌, pure, raise, query, exec, now_string,
}
use emarsys_mock.Store.Export.{
  export_row, update_export, is_export, changed, export_by_id, is_finished, polled, readied,
  advance, poll_export, is_done, export_payload,
}

-- The database never fails, and the row of the job is `e`.
pub record Job (id : ℤ) (e : Export) (w : World) : Type 0 where
  pub row : export_row id w.tables ≡ some e
  pub sound : (n : ℕ) → w.driver.fails n ≡ false

-- The polls of a client, one after the other, and where they leave the world.
unfoldable pub poll_times : ℕ → ℤ → World → List (Result Err Export) × World
poll_times zero id w = ([], w)
poll_times (suc n) id w =
    let (r, w') = poll_export id w in let (rs, w'') = poll_times n id w' in (r ∷ rs, w'')

pub next-Job : (id : ℤ) (e : Export) (w : World) → Job id e w → Job id e (next w)
next-Job id e w h = record { row = h.row; sound = h.sound }

export_by_id-Job :
    (id : ℤ) (e : Export) (w : World) → Job id e w → export_by_id id w ≡ (ok e, next w)
unfolding export_by_id query ◌>>=◌ pure
export_by_id-Job id e w h = rw (h.sound w.calls, h.row)

pub find_first-changed :
    (id : ℤ) (f : Export → Export) (e : Export) (es : List Export)
    → ((r : Export) → (f r).id ≡ r.id)
    → find_first (is_export id) es ≡ some e
    → find_first (is_export id) (map (changed id f) es) ≡ some (f e)
unfolding find_first
find_first-changed id f e [] same h = cc
find_first-changed id f e (r ∷ es) same h = elim (Bool-cases (is_export id r)) [
  | inl hit ↦
      let here : some r ≡ some e = rw (hit) at h in
      let same_row : r ≡ e = cc in
      let hit' : int_eq (pos (f r).id) id ≡ true = rw (same r) hit in rw (hit, hit', same_row)
  | inr miss ↦
      let rest : find_first (is_export id) es ≡ some e = rw (miss) at h in
      rw (miss, miss, find_first-changed id f e es same rest)
]

pub update_export-Job :
    (id : ℤ) (f : Export → Export) (e : Export) (w : World)
    → ((r : Export) → (f r).id ≡ r.id)
    → Job id e w
    → Job id (f e) (exec (update_export id f) w).1
unfolding exec update_export export_row
update_export-Job id f e w same h =
    rw (h.sound w.calls)
      (record { row = find_first-changed id f e w.tables.exports.rows same h.row; sound = h.sound })

pub update_export-ok :
    (id : ℤ) (f : Export → Export) (e : Export) (w : World)
    → Job id e w
    → (exec (update_export id f) w).0 ≡ ok (any (is_export id) w.tables.exports.rows)
unfolding exec update_export
update_export-ok id f e w h = rw (h.sound w.calls)

-- What a poll does to a job that is not finished, with its answer.
abbrev Moves : ℤ → Export → Result Err Export × World → Type 0
Moves id e x = (x.0 ≡ ok e) × Job id e x.1

advance-Moves-done :
    (id : ℤ) (e : Export) (w : World)
    → Job id e w
    → int_lt e.polls_before_done (plus_one e.poll_count) ≡ true
    → Moves id (readied (w.driver.now w.calls) e) (advance id e w)
unfolding advance ◌>>=◌ pure now_string
advance-Moves-done id e w h over =
    let f : Export → Export = λ r. record r {
      poll_count = plus_one e.poll_count;
      status = done;
      ready_at = some (w.driver.now w.calls);
    } in
    let h' = next-Job id e w h in
    rw (over, update_export-ok id f e (next w) h')
      (refl, update_export-Job id f e (next w) (λ r. refl) h')

advance-Moves-on :
    (id : ℤ) (e : Export) (w : World)
    → Job id e w
    → int_lt e.polls_before_done (plus_one e.poll_count) ≡ false
    → Moves id (polled e) (advance id e w)
unfolding advance ◌>>=◌ pure
advance-Moves-on id e w h over =
    let f : Export → Export =
      λ r. record r { poll_count = plus_one e.poll_count; status = in_progress } in
    rw (over, update_export-ok id f e w h) (refl, update_export-Job id f e w (λ r. refl) h)

poll_export-ongoing :
    (id : ℤ) (e : Export) (w : World)
    → Job id e w
    → is_finished e.status ≡ false
    → poll_export id w ≡ advance id e (next w)
unfolding poll_export ◌>>=◌ pure
poll_export-ongoing id e w h going = rw (export_by_id-Job id e w h, going)

poll_export-done :
    (id : ℤ) (e : Export) (w : World)
    → Job id e w
    → is_finished e.status ≡ false
    → int_lt e.polls_before_done (plus_one e.poll_count) ≡ true
    → Moves id (readied (w.driver.now (w.calls + 1)) e) (poll_export id w)
poll_export-done id e w h going over =
    rw (poll_export-ongoing id e w h going)
      (advance-Moves-done id e (next w) (next-Job id e w h) over)

poll_export-on :
    (id : ℤ) (e : Export) (w : World)
    → Job id e w
    → is_finished e.status ≡ false
    → int_lt e.polls_before_done (plus_one e.poll_count) ≡ false
    → Moves id (polled e) (poll_export id w)
poll_export-on id e w h going over =
    rw (poll_export-ongoing id e w h going)
      (advance-Moves-on id e (next w) (next-Job id e w h) over)

poll_export-finished :
    (id : ℤ) (e : Export) (w : World)
    → Job id e w
    → is_finished e.status ≡ true
    → Moves id e (poll_export id w)
unfolding poll_export ◌>>=◌ pure
poll_export-finished id e w h finished =
    rw (export_by_id-Job id e w h, finished) (refl, next-Job id e w h)

-- The status that a poll answers.
abbrev pub status_of : Result Err Export → Option ExportStatus
status_of (ok e) = some e.status
status_of (err e) = none

abbrev pub statuses : List (Result Err Export) → List (Option ExportStatus)
statuses rs = map status_of rs

-- A job that has `room` polls to go.
pub record Going (room : ℕ) (e : Export) : Type 0 where
  pub polls : ℕ
  pub count : e.poll_count ≡ pos polls
  pub goal : e.polls_before_done ≡ pos (polls + room)
  pub going : is_finished e.status ≡ false

-- The answers of polls, and the job that they leave.
abbrev Answers :
    ℤ → Export → List (Option ExportStatus) → Bool → List (Result Err Export) × World → Type 0
Answers id e answers finished x =
    (statuses x.0 ≡ answers)
    × ((e' : Export) × Job id e' x.1 × (e'.payload ≡ e.payload) × (is_done e'.status ≡ finished))

poll_times-finished :
    (n : ℕ) (id : ℤ) (e : Export) (w : World)
    → Job id e w
    → e.status ≡ done
    → Answers id e (replicate n (some done)) true (poll_times n id w)
unfolding poll_times
poll_times-finished zero id e w h d = (refl, (e, h, refl, rw (d) refl))
poll_times-finished (suc n) id e w h d =
    let (answer, h') = poll_export-finished id e w h (rw (d) refl) in
    let (answers, job) = poll_times-finished n id e (poll_export id w).1 h' d in
    (rw (answer, d, answers) refl, job)

polled-Going : (room : ℕ) (e : Export) → Going (suc room) e → Going room (polled e)
polled-Going room e g = record {
  polls = suc g.polls;
  count = rw (g.count) refl;
  goal = g.goal ∙ ap pos (omega arith);
  going = refl;
}

is_done-going : (s : ExportStatus) → is_finished s ≡ false → is_done s ≡ false
is_done-going s h = ground arith

poll_times-Going :
    (n room : ℕ) (id : ℤ) (e : Export) (w : World)
    → Job id e w
    → Going room e
    → Answers id e
        (take n (replicate room (some in_progress)) ++ replicate (n - room) (some done))
        (ltb room n)
        (poll_times n id w)
unfolding poll_times
poll_times-Going zero room id e w h g =
    let none_done : 0 - room ≡ 0 = omega arith in
    let not_over : ltb room 0 ≡ false = ground arith in
    (rw (none_done), (e, h, refl, rw (not_over) (is_done-going e.status g.going)))
poll_times-Going (suc n) zero id e w h g =
    let over : int_lt e.polls_before_done (plus_one e.poll_count) ≡ true =
      rw (g.count, g.goal) (ground arith) in
    let (answer, h') = poll_export-done id e w h g.going over in
    let (answers, job) = poll_times-finished n id _ (poll_export id w).1 h' refl in
    let all_done : suc n - 0 ≡ suc n = omega arith in
    let over_now : ltb 0 (suc n) ≡ true = ground arith in
    (rw (answer, answers, all_done) refl, rw (over_now) job)
poll_times-Going (suc n) (suc room) id e w h g =
    let over : int_lt e.polls_before_done (plus_one e.poll_count) ≡ false =
      rw (g.count, g.goal) (ground arith) in
    let (answer, h') = poll_export-on id e w h g.going over in
    let (answers, job) =
      poll_times-Going n room id (polled e) (poll_export id w).1 h' (polled-Going room e g) in
    let same : suc n - suc room ≡ n - room = omega arith in
    let same_test : ltb (suc room) (suc n) ≡ ltb room n = ground arith in
    (rw (answer, answers, same) refl, rw (same_test) job)

pub export_payload-Job :
    (id : ℤ) (e : Export) (w : World)
    → Job id e w
    → (export_payload id w).0 ≡ (if is_done e.status then ok e.payload else err export_not_ready)
unfolding export_payload query ◌>>=◌ pure raise
export_payload-Job id e w h = elim (Bool-cases (is_done e.status)) [
  | inl d ↦ rw (export_by_id-Job id e w h, d, h.sound (w.calls + 1), h.row)
  | inr d ↦ rw (export_by_id-Job id e w h, d)
]

-- A client that polls a job n times, with `room` polls to go before it is done and a database that
-- does not fail, reads "in progress" from the first `room` polls and "done" from all the others; the
-- data is refused as not ready until a poll has read "done", and is the job's from then on.
pub poll_times-export_payload :
    (n room : ℕ) (id : ℤ) (e : Export) (w : World)
    → Job id e w
    → Going room e
    → let (rs, w') = poll_times n id w in
      (statuses rs ≡ take n (replicate room (some in_progress)) ++ replicate (n - room) (some done))
      × ((export_payload id w').0 ≡ (if ltb room n then ok e.payload else err export_not_ready))
poll_times-export_payload n room id e w h g =
    let (answers, (e', h', same, finished)) = poll_times-Going n room id e w h g in
    (answers, rw (export_payload-Job id e' (poll_times n id w).1 h', same, finished))
