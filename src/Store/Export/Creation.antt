-- ===== src/Store/Export/Creation.antt =====
-- What the creation of an export job leaves.
use emarsys_mock.Base.{
  ◌≡◌, refl, arith, ℕ, ◌+◌, ◌≤◌, Bool, none, some, List, [], ◌∷◌, ◌++◌, map, Str, ℤ, pos,
  int_eq_refl, find_first, find_first-append, All,
}
use emarsys_mock.Store.Tables.{Tables, Export, scheduled}
use emarsys_mock.Store.Exec.Rules.{Reads-now_string}
use emarsys_mock.Store.Exec.Yields.{Yields, Yields-pure, Yields-of-Reads, Yields-exec, Yields-bind}
use emarsys_mock.Store.Export.{
  insert_export, update_export, is_export, changed, named, create_export, export_row,
}
use emarsys_mock.Store.Export.Polling.{find_first-changed}

-- No job has an id that has not been given yet.
pub record IsFresh (t : Tables) : Type 0 where
  pub ids : All (λ (e : Export). e.id ≤ t.exports.seq) t.exports.rows

-- The job `id` is as it was made, with this number of polls and this data.
pub record Made (polls : ℤ) (payload : Str) (id : ℕ) (t : Tables) : Type 0 where
  pub job : Export
  pub row : export_row (pos id) t ≡ some job
  pub unpolled : job.poll_count ≡ pos 0
  pub goal : job.polls_before_done ≡ polls
  pub waiting : job.status ≡ scheduled
  pub content : job.payload ≡ payload

fresh-none :
    (seq : ℕ) (es : List Export)
    → All (λ (e : Export). e.id ≤ seq) es
    → find_first (is_export (pos (seq + 1))) es ≡ none
unfolding find_first
fresh-none seq [] h = refl
fresh-none seq (e ∷ es) (h, hs) = ground (arith, fresh-none seq es hs)

module _ (type params : Str) (polls : ℤ) (payload : Str) where
  insert_export-Made :
      (created : Str) (t t' : Tables) (id : ℕ)
      → IsFresh t
      → insert_export type params created polls payload t ≡ some (id, t')
      → Made polls payload id t'
  unfolding insert_export export_row
  insert_export-Made created t t' id fresh h =
      let new : Export = record {
        id = t.exports.seq + 1;
        type = type;
        status = scheduled;
        params = params;
        created_at = created;
        ready_at = none;
        poll_count = pos 0;
        polls_before_done = polls;
        file_name = [];
        payload = payload;
      } in
      let given : t.exports.seq + 1 ≡ id = ground arith in
      let rows : t'.exports.rows ≡ t.exports.rows ++ new ∷ [] = ground arith in
      record {
        job = new;
        row =
            rw (← given, rows)
              (find_first-append (is_export (pos (t.exports.seq + 1))) t.exports.rows new
                (fresh-none t.exports.seq t.exports.rows fresh.ids)
                (int_eq_refl (pos (t.exports.seq + 1))));
        unpolled = refl;
        goal = refl;
        waiting = refl;
        content = refl;
      }

  update_export-Made :
      (name : Str) (id : ℕ) (t t' : Tables) (hit : Bool)
      → Made polls payload id t
      → update_export (pos id) (named name) t ≡ some (hit, t')
      → Made polls payload id t'
  unfolding update_export export_row
  update_export-Made name id t t' hit m h =
      let rows : t'.exports.rows ≡ map (changed (pos id) (named name)) t.exports.rows =
        ground arith in
      record {
        job = named name m.job;
        row =
            rw (rows)
              (find_first-changed (pos id) (named name) m.job t.exports.rows (λ r. refl) m.row);
        unpolled = m.unpolled;
        goal = m.goal;
        waiting = m.waiting;
        content = m.content;
      }

  -- A job that was made is there.
  pub create_export-Made :
      Yields IsFresh (create_export type params polls payload) (Made polls payload)
  unfolding create_export
  create_export-Made = Yields-bind _ _ (Yields-of-Reads Reads-now_string) λ created.
      Yields-bind _ _
        (Yields-exec _ {Q = Made polls payload}
          λ t id t' p h. insert_export-Made created t t' id p h)
        λ id.
          Yields-bind _ _
            (Yields-exec _ {Q = λ _. Made polls payload id}
              λ t hit t' p h. update_export-Made _ id t t' hit p h)
            λ hit. Yields-pure id (λ t h. h)
