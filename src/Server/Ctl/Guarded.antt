-- ===== src/Server/Ctl/Guarded.antt =====
-- Who can change the tables through the control plane.
use emarsys_mock.Base.{
  ◌≡◌, ◌≢◌, ◌⊎◌, refl, ◌∙◌, inl, inr, Bool-cases, arith, Bool, true, false, ◌||◌, Option, none,
  some, [], ◌∷◌, ◌++◌, Str, lit, is_empty, str_eq_iff, any, has_prefix, has_prefix_iff, drop,
  length,
}
use emarsys_mock.Store.Exec.{World, Exec, raise}
use emarsys_mock.Store.Exec.Rules.{Reads, Reads-bind, Reads-pure, Reads-raise, reads_rules}
use emarsys_mock.Store.Event.{triggers}
use emarsys_mock.Store.Fault.{fault_rules}
use emarsys_mock.Store.RequestLog.{RequestLog}
use emarsys_mock.Server.Common.{Settings}
use emarsys_mock.Server.Ctl.{
  Control, CtlFailure, CtlRequest, trim_prefix, is_token, has_ctl_token, is_loopback, ctl_auth,
  require_writable, handle_ctl_reset, handle_ctl_requests, handle_ctl_triggers,
  handle_ctl_fault_list, handle_ctl_fault_create, handle_ctl_fault_delete, handle_ctl_export_status,
}
use emarsys_mock.Server.Ctl.Seed.{handle_ctl_seed}
use emarsys_mock.Server.Ctl.Routes.{
  CtlCall, reset, seed, requests, event_triggers, fault_list, fault_create, fault_delete,
  export_force, dispatch, control_plane,
}

-- A request has the token in a header, in its query or in a cookie.
pub data Carries (r : CtlRequest) (token : Str) : Type 0 where
  in_header : r.ctl_header ≡ token → Carries r token
  as_bearer : r.authorization ≡ lit "Bearer " ++ token → Carries r token
  as_authorization : r.authorization ≡ token → Carries r token
  in_query : r.query_token ≡ token → Carries r token
  in_cookie : r.cookie ≡ some token → Carries r token

-- There is a token and the request has it, or there is none and the request comes from this machine.
pub data Permitted (c : Control) (r : CtlRequest) : Type 0 where
  by_token : c.ctl_token ≢ [] → Carries r c.ctl_token → Permitted c r
  from_loopback : c.ctl_token ≡ [] → is_loopback c r ≡ true → Permitted c r

is_token-eq : (c : Control) (s : Str) → is_token c s ≡ true → s ≡ c.ctl_token
is_token-eq c s h = (str_eq_iff s c.ctl_token).0 (ground arith)

trim_prefix-Carries :
    (r : CtlRequest) (token : Str)
    → trim_prefix r.authorization (lit "Bearer ") ≡ token
    → Carries r token
trim_prefix-Carries r token h = elim (Bool-cases (has_prefix r.authorization (lit "Bearer "))) [
  | inl e ↦
      let rest : drop (length (lit "Bearer ")) r.authorization ≡ token = rw (e) at h in
      as_bearer (rw (← rest) (has_prefix_iff r.authorization (lit "Bearer ") e))
  | inr e ↦ as_authorization (rw (e) at h)
]

or_true : (a b : Bool) → (a || b) ≡ true → (a ≡ true) ⊎ (b ≡ true)
or_true true b h = inl refl
or_true false b h = inr h

cookie-Carries :
    (c : Control) (r : CtlRequest) (cookie : Option Str)
    → r.cookie ≡ cookie
    → any (is_token c) (elim cookie [ none ↦ [] | some value ↦ value ∷ [] ]) ≡ true
    → Carries r c.ctl_token
unfolding any
cookie-Carries c r none e h = cc
cookie-Carries c r (some value) e h = elim (or_true _ _ h) [
  | inl t ↦ in_cookie (e ∙ ap_some (is_token-eq c value t))
  | inr t ↦ cc
]
  where
    ap_some : {a b : Str} → a ≡ b → some a ≡ some b
    ap_some e = cc

has_ctl_token-Carries :
    (c : Control) (r : CtlRequest) → has_ctl_token c r ≡ true → Carries r c.ctl_token
unfolding has_ctl_token any
has_ctl_token-Carries c r h = elim (or_true _ _ h) [
  | inl t ↦ in_header (is_token-eq c _ t)
  | inr h' ↦ elim (or_true _ _ h') [
    | inl t ↦ trim_prefix-Carries r c.ctl_token (is_token-eq c _ t)
    | inr h'' ↦ elim (or_true _ _ h'') [
      | inl t ↦ in_query (is_token-eq c _ t)
      | inr t ↦ cookie-Carries c r r.cookie refl t
    ]
  ]
]

is_empty-nil : (s : Str) → is_empty s ≡ true → s ≡ []
unfolding is_empty
is_empty-nil [] h = refl
is_empty-nil (c ∷ s) h = cc

not_empty-nil : (s : Str) → is_empty s ≡ false → s ≢ []
unfolding is_empty
not_empty-nil [] h e = cc
not_empty-nil (c ∷ s) h e = cc

-- The guard lets a request through only if it is permitted.
ctl_auth-cases :
    {A : Type 0} (c : Control) (r : CtlRequest) (m : Exec CtlFailure A) (w : World)
    → (((ctl_auth c r m w).1.tables ≡ w.tables) ⊎ ((ctl_auth c r m ≡ m) × Permitted c r))
unfolding ctl_auth raise
ctl_auth-cases c r m w = elim (Bool-cases (is_empty c.ctl_token)) [
  | inl no_token ↦ elim (Bool-cases (is_loopback c r)) [
    | inl here ↦
        inr (rw (no_token, here) refl, from_loopback (is_empty-nil c.ctl_token no_token) here)
    | inr away ↦ inl (rw (no_token, away) refl)
  ]
  | inr token ↦ elim (Bool-cases (has_ctl_token c r)) [
    | inl has ↦ inr (
      rw (token, has) refl,
      by_token (not_empty-nil c.ctl_token token) (has_ctl_token-Carries c r has),
    )
    | inr has_not ↦ inl (rw (token, has_not) refl)
  ]
]

Reads-require_writable :
    {A : Type 0} (c : Control) (m : Exec CtlFailure A)
    → c.read_only ≡ true
    → Reads (require_writable c m)
unfolding require_writable
Reads-require_writable c m h = rw (h) (Reads-raise _)

Reads-dispatch :
    (s : Settings) (c : Control) (log : RequestLog) (call : CtlCall)
    → c.read_only ≡ true
    → Reads (dispatch s c log call)
unfolding dispatch handle_ctl_reset handle_ctl_seed handle_ctl_requests handle_ctl_triggers
    handle_ctl_fault_list handle_ctl_fault_create handle_ctl_fault_delete handle_ctl_export_status
    triggers fault_rules
Reads-dispatch s c log reset h = Reads-bind _ _ (Reads-require_writable c _ h) (λ _. Reads-pure _)
Reads-dispatch s c log (seed request) h =
    Reads-bind _ _ (Reads-require_writable c _ h) (λ _. Reads-pure _)
Reads-dispatch s c log (requests p) h = search (reads_rules) depth 8
Reads-dispatch s c log (event_triggers event limit) h = search (reads_rules) depth 8
Reads-dispatch s c log (fault_list enabled) h = search (reads_rules) depth 8
Reads-dispatch s c log (fault_create request) h =
    Reads-bind _ _ (Reads-require_writable c _ h) (λ _. Reads-pure _)
Reads-dispatch s c log (fault_delete raw) h =
    Reads-bind _ _ (Reads-require_writable c _ h) (λ _. Reads-pure _)
Reads-dispatch s c log (export_force raw request) h =
    Reads-bind _ _ (Reads-require_writable c _ h) (λ _. Reads-pure _)

-- Whatever a request to the control plane asks for and however it ends, it leaves every table as it was,
-- unless the instance can be written to and the request has the token or, where there is no token, comes
-- from this machine.
pub control_plane-guarded :
    (s : Settings) (c : Control) (log : RequestLog) (r : CtlRequest) (call : CtlCall) (w : World)
    → ((control_plane s c log r call w).1.tables ≡ w.tables)
      ⊎ ((c.read_only ≡ false) × Permitted c r)
unfolding control_plane
control_plane-guarded s c log r call w = elim (ctl_auth-cases c r (dispatch s c log call) w) [
  | inl same ↦ inl same
  | inr (passes, permitted) ↦ elim (Bool-cases c.read_only) [
    | inl read_only ↦ inl (rw (passes) ((Reads-dispatch s c log call read_only).at w))
    | inr writable ↦ inr (writable, permitted)
  ]
]
