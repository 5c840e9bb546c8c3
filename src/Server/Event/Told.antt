-- ===== src/Server/Event/Told.antt =====
-- The payloads that tell of the triggers that are stored, and what is posted of them.
use emarsys_mock.Base.{
  ◌≡◌, refl, ap, ℕ, true, false, Option, none, some, List, [], ◌∷◌, ◌++◌, Str, is_empty, str_key,
}
use emarsys_mock.Store.Tables.{Tables, EventTrigger}
use emarsys_mock.Store.Event.{NewTrigger, stored, null_if_empty}
use emarsys_mock.Webhook.{TriggerPayload, Sender, started, send}

-- A payload tells of a stored trigger.
pub record Tells (r : EventTrigger) (p : TriggerPayload) : Type 0 where
  pub event_id : p.event_id ≡ r.event_id
  pub contact_id : p.contact_id ≡ r.contact_id
  pub external_id : p.external_id ≡ r.external_id
  pub payload : p.payload ≡ r.payload
  pub event_time : null_if_empty p.event_time ≡ r.event_time
  pub trigger_id : null_if_empty p.trigger_id ≡ r.trigger_id

-- One payload for each row, in their order
abbrev pub AllTell : List EventTrigger → List TriggerPayload → Type 0
AllTell [] [] = Unit
AllTell (r ∷ rs) (p ∷ ps) = Tells r p × AllTell rs ps
AllTell _ _ = ⊥

abbrev pub body_of : Option Str → List Str → List Str
body_of none bodies = bodies
body_of (some body) bodies = body ∷ bodies

-- The payloads that can be marshalled, as bodies.
unfoldable pub bodies : (TriggerPayload → Option Str) → List TriggerPayload → List Str
bodies marshal [] = []
bodies marshal (p ∷ ps) = body_of (marshal p) (bodies marshal ps)

-- The rows that were added, the payloads that tell of them, and the posts
pub record Announced (s : Sender) (before : List EventTrigger) (posts : List Str) (t : Tables)
    : Type 0 where
  pub rows : List EventTrigger
  pub payloads : List TriggerPayload
  pub triggers : t.events.triggers ≡ before ++ rows
  pub told : AllTell rows payloads
  pub enabled : is_empty s.url ≡ false → posts ≡ bodies s.marshal payloads
  pub disabled : is_empty s.url ≡ true → posts ≡ []

-- One row more, of which nothing has been told.
pub record Grown (s : Sender) (before : List EventTrigger) (posts : List Str) (n : NewTrigger)
    (t : Tables) : Type 0 where
  pub rows : List EventTrigger
  pub payloads : List TriggerPayload
  pub id : ℕ
  pub now : Str
  pub triggers : t.events.triggers ≡ before ++ (rows ++ stored n id now ∷ [])
  pub told : AllTell rows payloads
  pub enabled : is_empty s.url ≡ false → posts ≡ bodies s.marshal payloads
  pub disabled : is_empty s.url ≡ true → posts ≡ []

pub AllTell-append :
    (rs : List EventTrigger) (ps : List TriggerPayload) (r : EventTrigger) (p : TriggerPayload)
    → AllTell rs ps
    → Tells r p
    → AllTell (rs ++ r ∷ []) (ps ++ p ∷ [])
AllTell-append [] [] r p h k = (k, tt)
AllTell-append [] (q ∷ ps) r p h k = absurd h
AllTell-append (q ∷ rs) [] r p h k = absurd h
AllTell-append (q ∷ rs) (o ∷ ps) r p (h, hs) k = (h, AllTell-append rs ps r p hs k)

pub bodies-append :
    (marshal : TriggerPayload → Option Str) (ps : List TriggerPayload) (p : TriggerPayload)
    → started (bodies marshal ps) (marshal p) ≡ bodies marshal (ps ++ p ∷ [])
unfolding bodies
bodies-append marshal [] p = of_body (marshal p)
  where
    of_body : (o : Option Str) → started [] o ≡ body_of o []
    of_body none = refl
    of_body (some b) = refl
bodies-append marshal (q ∷ ps) p = of_body (marshal q) (marshal p) (bodies-append marshal ps p)
  where
    of_body :
        (o x : Option Str)
        → started (bodies marshal ps) x ≡ bodies marshal (ps ++ p ∷ [])
        → started (body_of o (bodies marshal ps)) x ≡ body_of o (bodies marshal (ps ++ p ∷ []))
    of_body none x h = h
    of_body (some b) none h = ap (λ (bs : List Str). b ∷ bs) h
    of_body (some b) (some c) h = ap (λ (bs : List Str). b ∷ bs) h

pub send-enabled :
    (s : Sender) (ps : List TriggerPayload) (p : TriggerPayload) (posts : List Str)
    → is_empty s.url ≡ false
    → posts ≡ bodies s.marshal ps
    → send s p posts ≡ bodies s.marshal (ps ++ p ∷ [])
unfolding send
send-enabled s ps p posts on h = rw (on, h) (bodies-append s.marshal ps p)

pub send-disabled :
    (s : Sender) (p : TriggerPayload) (posts : List Str)
    → is_empty s.url ≡ true
    → send s p posts ≡ posts
unfolding send
send-disabled s p posts off = rw (off) refl
