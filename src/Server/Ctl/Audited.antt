-- ===== src/Server/Ctl/Audited.antt =====
-- What the control plane writes of the contacts is in the change history.
use emarsys_mock.Base.{
  ◌≡◌, refl, inl, inr, Bool-cases, List-cases, ℕ, Bool, true, false, ◌||◌, List, [], ◌∷◌, Str, ℤ,
  pos, lit, int_eq, str_key, is_empty, if◌then◌else◌,
}
use emarsys_mock.Store.Tables.{Tables}
use emarsys_mock.Store.Exec.{Err, Result, ok, err, World, next, Exec, pure, map_err}
use emarsys_mock.Store.Exec.Rules.{
  Keeps, Keeps-bind, Keeps-of-Reads, Keeps-map_err, Reads-lift, Reads-pure, keeps_rules,
  reads_rules,
}
use emarsys_mock.Store.Exec.Yields.{
  Yields, Yields-pure, Yields-of-Reads, Yields-bind, Yields-fold_each, Yields-map_err,
}
use emarsys_mock.Store.Field.{FieldCatalog}
use emarsys_mock.Store.Event.{create_event, triggers}
use emarsys_mock.Store.List.{create_contact_list}
use emarsys_mock.Store.Fault.{fault_rules}
use emarsys_mock.Store.Contact.{Values}
use emarsys_mock.Store.Contact.Audit.{
  IsAudited, apply_contact_values-IsAudited, create_contact-IsAudited,
}
use emarsys_mock.Store.RequestLog.{RequestLog}
use emarsys_mock.Store.Untouched.{
  Keeps-upsert_field, Keeps-add_choice, Keeps-create_event, Keeps-create_contact_list,
  Keeps-create_fault_rule, Keeps-delete_fault_rule, Keeps-set_export_status,
}
use emarsys_mock.Server.Json.{Json, FlexibleInt}
use emarsys_mock.Server.Common.{Settings}
use emarsys_mock.Server.Contact.Atomicity.{Reads-load_field_catalog, Reads-find_contact_ids}
use emarsys_mock.Server.Ctl.{
  Control, CtlFailure, CtlRequest, has_ctl_token, is_loopback, ctl_auth, require_writable,
  handle_ctl_reset, handle_ctl_requests, handle_ctl_triggers, handle_ctl_fault_list,
  handle_ctl_fault_create, handle_ctl_fault_delete, handle_ctl_export_status,
}
use emarsys_mock.Server.Ctl.Seed.{
  SeedRequest, SeedField, SeedChoice, SeedError, reset_failed, store_failed, Summary, seed_choice,
  seed_field, counted, seed_event, seed_list, settle_seed, with_seed_tx, seed_found, seed_contact,
  seed_contacts, seed_key, seed_all_contacts, apply_seed, handle_ctl_seed,
}
use emarsys_mock.Server.Ctl.Routes.{
  CtlCall, reset, seed, requests, event_triggers, fault_list, fault_create, fault_delete,
  export_force, dispatch, control_plane,
}

Keeps-require_writable :
    {A : Type 0} {P : Tables → Type 0} (c : Control) (m : Exec CtlFailure A)
    → Keeps P m
    → Keeps P (require_writable c m)
unfolding require_writable
Keeps-require_writable c m h = elim (Bool-cases c.read_only) [
  | inl e ↦ rw (e) (search (keeps_rules, reads_rules))
  | inr e ↦ rw (e) h
]

Keeps-counted :
    {A : Type 0} (kind : Str) (summary : Summary) (x : Result Err A × World)
    → IsAudited x.1.tables
    → IsAudited (counted kind summary x).1.tables
Keeps-counted kind summary (ok a, w) h = h
Keeps-counted kind summary (err e, w) h = h

Keeps-seed_event : (summary : Summary) (name : Str) → Keeps IsAudited (seed_event summary name)
unfolding seed_event
Keeps-seed_event summary name = record {
  at = λ w h. Keeps-counted _ summary (create_event name w) ((Keeps-create_event name).at w h);
}

Keeps-seed_list : (summary : Summary) (name : Str) → Keeps IsAudited (seed_list summary name)
unfolding seed_list
Keeps-seed_list summary name = record {
  at = λ w h.
      Keeps-counted _ summary (create_contact_list name w)
        ((Keeps-create_contact_list name).at w h);
}

Keeps-seed_choice :
    (field : ℤ) (u : Unit {0}) (c : SeedChoice) → Keeps IsAudited (seed_choice field u c)
unfolding seed_choice
Keeps-seed_choice field u c = search (keeps_rules, Keeps-add_choice)

Keeps-seed_field : (summary : Summary) (f : SeedField) → Keeps IsAudited (seed_field summary f)
unfolding seed_field
Keeps-seed_field summary f = elim (Bool-cases (int_eq f.id (pos 0) || is_empty f.name)) [
  | inl e ↦ rw (e) (search (keeps_rules, reads_rules))
  | inr e ↦
      rw (e) (search (keeps_rules, reads_rules, Keeps-upsert_field, Keeps-seed_choice) depth 8)
]

seed_found-IsAudited :
    (values : Values) (created : ℕ) (found : List ℕ)
    → Yields IsAudited (seed_found values created found) (λ _. IsAudited)
unfolding seed_found
seed_found-IsAudited values created [] =
    Yields-bind _ _ (create_contact-IsAudited values (lit "seed")) λ id. Yields-pure _ (λ t h. h)
seed_found-IsAudited values created (id ∷ ids) =
    Yields-bind _ _ (apply_contact_values-IsAudited id values (lit "seed"))
      λ _. Yields-pure _ (λ t h. h)

seed_contact-IsAudited :
    (catalog : FieldCatalog) (key : ℤ) (created : ℕ) (raw : List (Str × Json))
    → Yields IsAudited (seed_contact catalog key created raw) (λ _. IsAudited)
unfolding seed_contact
seed_contact-IsAudited catalog key created raw =
    Yields-bind _ _ (Yields-of-Reads (Reads-lift _)) λ row.
      Yields-bind _ _ (Yields-of-Reads (Reads-lift _)) λ key_value.
        Yields-bind _ _
          (Yields-map_err store_failed _ (Yields-of-Reads (Reads-find_contact_ids key key_value)))
          λ existing.
            Yields-map_err store_failed _ (seed_found-IsAudited row.values created existing)

-- A seeding that fails is undone.
settle_seed-IsAudited :
    {A : Type 0} (before : Tables) (x : Result SeedError A × World)
    → IsAudited before
    → ((a : A) → x.0 ≡ ok a → IsAudited x.1.tables)
    → IsAudited (settle_seed before x).1.tables
settle_seed-IsAudited before (err e, w) p q = p
settle_seed-IsAudited before (ok a, w) p q = elim (Bool-cases (w.driver.fails w.calls)) [
  | inl e ↦ rw (e) p
  | inr e ↦ rw (e) (q a refl)
]

Keeps-with_seed_tx :
    {A : Type 0} (fn : Exec SeedError A)
    → Yields IsAudited fn (λ _. IsAudited)
    → Keeps IsAudited (with_seed_tx fn)
unfolding with_seed_tx
Keeps-with_seed_tx fn h = record {
  at = λ w p. elim (Bool-cases (w.driver.fails w.calls)) [
    | inl e ↦ rw (e) p
    | inr e ↦ rw (e) (settle_seed-IsAudited w.tables (fn (next w)) p (λ a q. h.at (next w) a p q))
  ];
}

Keeps-seed_contacts :
    (key : FlexibleInt) (raws : List (List (Str × Json))) → Keeps IsAudited (seed_contacts key raws)
unfolding seed_contacts
Keeps-seed_contacts key raws =
    Keeps-bind _ _ (Keeps-of-Reads (search (reads_rules, Reads-load_field_catalog))) λ catalog.
      Keeps-with_seed_tx _ (
        Yields-fold_each (seed_contact catalog (seed_key key)) (λ _ _. IsAudited)
          (λ raw rest created. seed_contact-IsAudited catalog (seed_key key) created raw) raws 0)

Keeps-seed_all_contacts :
    (body : SeedRequest) (summary : Summary) → Keeps IsAudited (seed_all_contacts body summary)
unfolding seed_all_contacts
Keeps-seed_all_contacts body summary = elim (List-cases body.contacts) [
  | inl e ↦ rw (e) (search (keeps_rules, reads_rules))
  | inr (raw, raws, e) ↦ rw (e) (search (keeps_rules, reads_rules, Keeps-seed_contacts))
]

-- What holds of a control plane whose reset leaves the history complete.
module _ (c : Control) (h : Keeps IsAudited c.reset) where
  Keeps-apply_seed : (body : SeedRequest) → Keeps IsAudited (apply_seed c body)
  unfolding apply_seed
  Keeps-apply_seed body = Keeps-bind _ _ (maybe_reset body.reset) λ _.
      search
        (keeps_rules, Keeps-seed_field, Keeps-seed_event, Keeps-seed_list, Keeps-seed_all_contacts)
        depth 10
    where
      maybe_reset :
          (b : Bool) → Keeps IsAudited (if b then map_err reset_failed c.reset else pure tt)
      maybe_reset true = Keeps-map_err _ _ h
      maybe_reset false = search (keeps_rules, reads_rules)

  ruleset calls = (
    keeps_rules, reads_rules, Keeps-require_writable, Keeps-create_fault_rule,
    Keeps-delete_fault_rule, Keeps-set_export_status, Keeps-apply_seed,
  )

  Keeps-dispatch :
      (s : Settings) (log : RequestLog) (call : CtlCall) → Keeps IsAudited (dispatch s c log call)
  unfolding dispatch handle_ctl_reset handle_ctl_seed handle_ctl_requests handle_ctl_triggers
      handle_ctl_fault_list handle_ctl_fault_create handle_ctl_fault_delete handle_ctl_export_status
      triggers fault_rules
  Keeps-dispatch s log reset =
      Keeps-bind _ _ (Keeps-require_writable c _ (Keeps-map_err _ _ h))
        (λ _. Keeps-of-Reads (Reads-pure _))
  Keeps-dispatch s log (seed request) = search (calls) depth 10
  Keeps-dispatch s log (requests p) = search (calls) depth 10
  Keeps-dispatch s log (event_triggers event limit) = search (calls) depth 10
  Keeps-dispatch s log (fault_list enabled) = search (calls) depth 10
  Keeps-dispatch s log (fault_create request) = search (calls) depth 10
  Keeps-dispatch s log (fault_delete raw) = search (calls) depth 10
  Keeps-dispatch s log (export_force raw request) = search (calls) depth 14

  Keeps-control_plane :
      (s : Settings) (log : RequestLog) (r : CtlRequest) (call : CtlCall)
      → Keeps IsAudited (control_plane s c log r call)
  unfolding control_plane ctl_auth
  Keeps-control_plane s log r call = elim (Bool-cases (is_empty c.ctl_token)) [
    | inl e ↦ elim (Bool-cases (is_loopback c r)) [
      | inl f ↦ rw (e, f) (Keeps-dispatch s log call)
      | inr f ↦ rw (e, f) (search (keeps_rules, reads_rules))
    ]
    | inr e ↦ elim (Bool-cases (has_ctl_token c r)) [
      | inl f ↦ rw (e, f) (Keeps-dispatch s log call)
      | inr f ↦ rw (e, f) (search (keeps_rules, reads_rules))
    ]
  ]

-- Whatever the control plane is asked for and however it ends, the loading of a fixture included: if the
-- change history accounted for every stored value before it, then it does so after, provided that a reset
-- of the database leaves tables of which this holds.
pub control_plane-IsAudited :
    (s : Settings) (c : Control) (log : RequestLog) (r : CtlRequest) (call : CtlCall) (w : World)
    → Keeps IsAudited c.reset
    → IsAudited w.tables
    → IsAudited (control_plane s c log r call w).1.tables
control_plane-IsAudited s c log r call w h p = (Keeps-control_plane c h s log r call).at w p
