-- ===== src/Omadm/Message.antt =====
-- src/acs/protocol/omadm/syncml.py: the data of a received message.
use auto_configuration_serve.Prelude.{
  ℕ, String, Bool, Option, none, some, List, [], ◌∷◌, map, keep, elem, truthy, str_eq, not, ◌||◌,
  if◌then◌else◌,
}
use auto_configuration_serve.Prelude.Texts.{before_code, after_code}

abbrev pub auth_basic : String
auth_basic = "syncml:auth-basic"

abbrev pub auth_md5 : String
auth_md5 = "syncml:auth-md5"

pub record Credentials : Type 0 where
  pub type_ : String
  pub format : String
  pub value : String

-- `b64decode` pads, decodes and reads UTF-8; none where base64 refuses.
unfoldable pub decode_basic : (String → Option String) → Credentials → Option (String × String)
decode_basic b64decode credentials =
    if not (str_eq credentials.type_ auth_basic) || not (truthy credentials.value)
    then none
    else elim (b64decode credentials.value) [
      | none ↦ none
      | some raw ↦ elim (after_code 58 raw) [
        | none ↦ none
        | some password ↦ some (before_code 58 raw, password)
      ]
    ]

pub record Item : Type 0 where
  pub target : String
  pub source : String
  pub value : String
  pub format : String
  pub type_ : String

abbrev pub uri : Item → String
uri item = if truthy item.target then item.target else item.source

pub record Command : Type 0 where
  pub name : String
  pub cmd_id : String
  pub items : List Item
  pub value : String

abbrev pub first_uri : Command → String
first_uri command = elim command.items [ [] ↦ "" | item ∷ rest ↦ uri item ]

-- `msg_id` is kept with its reading by `int`: none for a text that is not of digits. The parser has
-- read it before (src/acs/protocol/omadm/syncml.py, `_integer`) and refuses a text of digits that
-- `int` does not read, so no such text comes to the session.
pub record SyncHdr : Type 0 where
  pub session_id : String
  pub msg_id : String
  pub msg_number : Option ℕ
  pub target : String
  pub source : String
  pub source_name : String
  pub max_msg_size : ℕ
  pub credentials : Option Credentials

pub record SyncMlMessage : Type 0 where
  pub header : SyncHdr
  pub commands : List Command
  pub final : Bool

unfoldable pub of_names : List String → List Command → List Command
of_names names commands = keep (λ c. elem c.name names) commands

unfoldable pub alert_codes : SyncMlMessage → List String
unfolding of_names
alert_codes message = keep truthy (map (λ c. c.value) (of_names ("Alert" ∷ []) message.commands))

unfoldable pub has_alert : SyncMlMessage → String → Bool
unfolding alert_codes
has_alert message wanted = elem wanted (alert_codes message)
