-- ===== src/Api/Models.antt =====
-- pulsar_relay/models.py: the messages and answers of the HTTP interface.
use pulsar_relay.Prelude.{ℕ, String, Option, none, some, List, [], ◌∷◌, nat_eq, string_eq, pair_eq}
use pulsar_relay.Dict
use pulsar_relay.Core.Idempotency.{Body}

-- The HTTP errors that the handlers raise.
pub data HttpError : Type 0 where
  forbidden server_error : HttpError

pub data Reply {ℓ} (A : Type ℓ) : Type ℓ where
  replies : A → Reply A
  fails : HttpError → Reply A

-- `BulkMessageResult`: the status is "accepted" or "rejected".
pub record BulkMessageResult : Type 0 where
  pub message_id : Option String
  pub topic : String
  pub status : String
  pub error : Option String

-- A field of a JSON response body; a timestamp stands for its ISO text.
pub data Value : Type 0 where
  text : String → Value
  timestamp : ℕ → Value
  results : List BulkMessageResult → Value
  counts : List (String × ℕ) → Value

pub record BulkMessageResponse : Type 0 where
  pub results : List BulkMessageResult
  pub summary : List (String × ℕ)

pub record MessageResponse : Type 0 where
  pub message_id : String
  pub topic : String
  pub timestamp : ℕ

pub record Message {ℓ} (P : Type ℓ) : Type ℓ where
  pub topic : String
  pub payload : P
  pub metadata : Option (List (String × String))

-- `WebSocketMessage`, as it is sent to clients.
pub record WebSocketMessage {ℓ} (P : Type ℓ) : Type ℓ where
  pub message_id : String
  pub topic : String
  pub payload : P
  pub timestamp : ℕ
  pub metadata : Option (List (String × String))

-- response.model_dump(mode="json")
unfoldable pub model_dump : MessageResponse → Body Value
model_dump r =
    ("message_id", text r.message_id)
    ∷ ("topic", text r.topic)
    ∷ ("timestamp", Value.timestamp r.timestamp)
    ∷ []

unfoldable pub as_text : Option Value → Option String
as_text (some (text s)) = some s
as_text _ = none

unfoldable pub as_timestamp : Option Value → Option ℕ
as_timestamp (some (Value.timestamp t)) = some t
as_timestamp _ = none

unfoldable pub response_of : Option String → Option String → Option ℕ → Option MessageResponse
response_of (some message_id) (some topic) (some t) =
    some (record { message_id = message_id; topic = topic; timestamp = t })
response_of _ _ _ = none

-- MessageResponse.model_validate(body): `none` is a validation error.
unfoldable pub model_validate : Body Value → Option MessageResponse
unfolding as_text as_timestamp response_of
model_validate body =
    response_of (as_text (Dict.get body "message_id")) (as_text (Dict.get body "topic"))
      (as_timestamp (Dict.get body "timestamp"))

unfoldable pub bulk_dump : BulkMessageResponse → Body Value
bulk_dump r = ("results", Value.results r.results) ∷ ("summary", counts r.summary) ∷ []

-- The default of `summary`.
abbrev pub no_counts : List (String × ℕ)
no_counts = ("total", 0) ∷ ("accepted", 0) ∷ ("rejected", 0) ∷ []

unfoldable pub bulk_of : Option Value → Option Value → Option BulkMessageResponse
bulk_of (some (Value.results rs)) none = some (record { results = rs; summary = no_counts })
bulk_of (some (Value.results rs)) (some (counts cs)) = some (record { results = rs; summary = cs })
bulk_of _ _ = none

-- BulkMessageResponse.model_validate(body)
unfoldable pub bulk_validate : Body Value → Option BulkMessageResponse
unfolding bulk_of
bulk_validate body = bulk_of (Dict.get body "results") (Dict.get body "summary")
