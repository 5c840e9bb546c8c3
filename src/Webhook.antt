-- ===== src/Webhook.antt =====
-- internal/webhook/webhook.go: what is posted when an external event is triggered. What becomes of a
-- post that has been started is the network's.
use emarsys_mock.Base.{
  ℕ, Bool, not, Option, none, some, List, [], ◌∷◌, ◌++◌, Str, is_empty, if◌then◌else◌,
}

-- Its `Type` is always the text "event.trigger".
pub record TriggerPayload : Type 0 where
  pub event_id : ℕ
  pub event_name : Str
  pub contact_id : Option ℕ
  pub external_id : Str
  pub key_id : Str
  pub payload : Str
  pub event_time : Str
  pub trigger_id : Str
  pub received_at : Str

-- The URL that is configured, and json.Marshal of a payload
pub record Sender : Type 0 where
  pub url : Str
  pub marshal : TriggerPayload → Option Str

-- Enabled
abbrev pub is_enabled : Sender → Bool
is_enabled s = not (is_empty s.url)

-- The goroutine is started with the body, if there is one.
abbrev pub started : List Str → Option Str → List Str
started posts none = posts
started posts (some body) = posts ++ body ∷ []

-- Send: the bodies of the posts that have been started
unfoldable pub send : Sender → TriggerPayload → List Str → List Str
send s p posts = if is_enabled s then started posts (s.marshal p) else posts
