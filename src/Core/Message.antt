-- ===== src/Core/Message.antt =====
-- internal/core/message.go: what agents tell each other. The body is the text of its bytes.
use lac.Base.{ℕ, String, ◌==◌, Bool, not, Option, none, some, List, ℤ, if◌then◌else◌}
use lac.Base.Result.{Error, invalid_argument}
use lac.Core.Time.{Time}
use lac.Core.Name.{validate_name}

abbrev pub broadcast_topic : String
broadcast_topic = "all"

pub record Message : Type 0 where
  pub id : String
  pub from_agent_id : String
  pub to_agent_id : String
  pub topic : String
  pub kind : String
  pub body : String
  pub created_at : Time
  pub expires_at : Option Time

-- `Direct`.
unfoldable pub direct : Message → Bool
direct m = not (m.to_agent_id == "")

abbrev topic_error : String → Option Error
topic_error topic = if topic == "" then none else validate_name topic

-- `Validate`.
unfoldable pub validate : Message → Option Error
validate m =
    if m.id == ""
    then some invalid_argument
    else if m.from_agent_id == ""
    then some invalid_argument
    else if (if m.to_agent_id == "" then m.topic == "" else not (m.topic == ""))
    then some invalid_argument
    else elim (topic_error m.topic) [
      | some e ↦ some e
      | none ↦ elim (validate_name m.kind) [
        | some e ↦ some e
        | none ↦ if m.body == "" then some invalid_argument else none
      ]
    ]

-- `MessageFilter`. `since` is `none` for the zero time and for one before the epoch, which keep every
-- message alike.
pub record MessageFilter : Type 0 where
  pub agent_id : String
  pub topic : String
  pub since : Option Time
  pub limit : ℤ

pub record MessageRecord : Type 0 where
  pub message : Message
  pub recipient_ids : List String
  pub delivered_count : ℕ
  pub acknowledged_count : ℕ
