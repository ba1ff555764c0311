-- ===== src/Omadm/Session.antt =====
-- src/acs/protocol/omadm/session.py, `DmService`: the settings, what a message is answered with, and
-- the helpers that all phases share. `Outside` is the clock, the digests, the parser and the builder
-- of messages with their encodings, and the rendering of a template.
pub mod Packages
pub mod Phases
pub mod Answer
pub mod Progress
pub mod Steps
pub mod SignIn
pub mod Guard
pub mod Seen
pub mod Partial
pub mod Starts
pub mod Remainders
pub mod Retry
mod Runs
use Prim.Native.String.{◌++◌ as str_append}
use auto_configuration_serve.Prelude.{
  ℕ, ◌+◌, String, Bool, true, false, Option, none, some, List, [], ◌∷◌, map, keep, elem, truthy,
  str_eq, length, take, drop, not, ◌&&◌, ◌||◌, ◌==◌, min, Result, ok, raise, ◌>>=◌, if◌then◌else◌,
}
use auto_configuration_serve.Prelude.Int.{ℤ, pos}
use auto_configuration_serve.Prelude.Dict
use auto_configuration_serve.Prelude.Dict.{Dict}
use auto_configuration_serve.Prelude.Texts.{strip, after_prefix}
use auto_configuration_serve.Models.{DmSession, DmPendingPackage, Device, Subscriber}
use auto_configuration_serve.Store.{MemoryStore, get_subscriber, get_device}
use auto_configuration_serve.Package.{
  Bytes, Entry, status, item, BuilderCall, PackageError, apply, fill,
}
use auto_configuration_serve.Omadm.Message.{
  Credentials, Item, uri, Command, first_uri, SyncHdr, SyncMlMessage, of_names, auth_basic,
  auth_md5,
}
use auto_configuration_serve.Omadm.Auth.{DmAuthResult, authenticate, authenticate_md5}
use auto_configuration_serve.Omadm.MoTree.{MoNode, node_at}

pub record DmSettings : Type 0 where
  pub dm_enabled : Bool
  pub dm_max_msg_size : ℕ
  pub dm_auth_scheme : String
  pub dm_session_ttl_seconds : ℕ
  pub dm_account_uri : String

-- What `_new_builder` gives the builder, and the `Status` of the `SyncHdr`.
pub record Frame : Type 0 where
  pub session_id : String
  pub msg_id : ℕ
  pub target : String
  pub source : String
  pub max_msg_size : ℕ

pub record HeaderStatus : Type 0 where
  pub msg_ref : String
  pub code : String
  pub target_ref : String
  pub challenge : Option (String × String)

-- What `_configuration_values` gives a template.
pub record RenderContext : Type 0 where
  pub imsi : String
  pub msisdn : String
  pub device_id : String
  pub provisioning_version : ℤ

pub record DmOutside : Type 0 where
  pub clock : ℕ
  pub fresh_nonce : String
  pub digest : String → String
  pub b64decode : String → Option String
  pub parse : (binary : Bool) → Bytes → Result String SyncMlMessage
  pub encode :
      (binary : Bool)
      → Bytes
      → Frame
      → HeaderStatus
      → List BuilderCall
      → (final : Bool) → Result PackageError Bytes
  pub render : MoNode → RenderContext → Dict String → String

-- What leaves `_handle_message` other than by a return.
pub data SessionError : Type 0 where
  challenge_too_large : (size limit : ℕ) → SessionError
  from_package : PackageError → SessionError

pub data Detail : Type 0 where
  says : String → Detail
  gets : ℕ → Detail
  adds_replaces : (adds replaces : ℕ) → Detail
  pending_entries : ℕ → Detail
  failures : ℕ → Detail

pub record DmResponse : Type 0 where
  pub status_code : ℕ
  pub body : Bytes
  pub content_type : String
  pub metric : String
  pub detail : Detail
  pub session_finished : Bool

abbrev pub content_type_xml : String
content_type_xml = "application/vnd.syncml.dm+xml"

abbrev pub content_type_wbxml : String
content_type_wbxml = "application/vnd.syncml.dm+wbxml"

abbrev pub response :
    ℕ → Bytes → (metric : String) → Detail → (session_finished : Bool) → DmResponse
response status_code body metric detail finished = record {
  status_code = status_code;
  body = body;
  content_type = content_type_xml;
  metric = metric;
  detail = detail;
  session_finished = finished;
}

-- `f"{device_id or 'unknown'}:{wire_session_id}"`
unfoldable pub session_key : String → String → String
session_key device_id wire_session_id =
    str_append (if truthy device_id then device_id else "unknown") (str_append ":" wire_session_id)

unfoldable pub without_prefix : List String → String → String
unfolding after_prefix
without_prefix [] value = value
without_prefix (p ∷ ps) value = elim (after_prefix p value) [
  | some rest ↦ rest
  | none ↦ without_prefix ps value
]

unfoldable pub device_id_from : String → String
unfolding strip without_prefix
device_id_from source =
    if not (truthy source)
    then ""
    else without_prefix ("urn:gsma:imei:" ∷ "urn:imei:" ∷ "IMEI:" ∷ "imei:" ∷ []) (strip source)

abbrev pub unsupported_commands : List String
unsupported_commands = "Copy" ∷ "Delete" ∷ "Sequence" ∷ "Atomic" ∷ "Exec" ∷ []

module _ (tree : List MoNode) where
  -- Whether the command names a node that the tree has not.
  abbrev unknown_node : Command → Bool
  unknown_node command =
      elem command.name ("Get" ∷ "Replace" ∷ "Add" ∷ [])
      && (truthy (first_uri command)
          && elim (node_at tree (first_uri command)) [ none ↦ true | some n ↦ false ])

  unfoldable pub status_for : Command → String
  status_for command =
      if elem command.name unsupported_commands
      then "406"
      else if unknown_node command
      then "404"
      else if elem command.name ("Alert" ∷ "Results" ∷ "Get" ∷ "Replace" ∷ "Add" ∷ "Put" ∷ [])
      then "200"
      else "406"

  unfoldable pub acks : SyncMlMessage → List Entry
  unfolding status_for
  acks message =
      map (λ c. status c.name message.header.msg_id c.cmd_id (status_for c) (first_uri c))
        (keep (λ c. not (str_eq c.name "Status")) message.commands)

  -- `device.mo_values[uri] = item.data` for a node that the device owns.
  unfoldable pub absorb_item : Dict String → Item → Dict String
  absorb_item values i =
      if not (truthy (uri i)) || not (truthy i.value) then values else elim (node_at tree (uri i)) [
        | none ↦ values
        | some n ↦ if n.from_device then Dict.put values (uri i) i.value else values
      ]

  unfoldable pub absorb_items : Dict String → List Item → Dict String
  unfolding absorb_item
  absorb_items values [] = values
  absorb_items values (i ∷ is) = absorb_items (absorb_item values i) is

  unfoldable pub absorb_commands : Dict String → List Command → Dict String
  unfolding absorb_items
  absorb_commands values [] = values
  absorb_commands values (c ∷ cs) = absorb_commands (absorb_items values c.items) cs

abbrev pub value_or : Dict String → (key default : String) → String
value_or values key default = elim (Dict.get values key) [ none ↦ default | some v ↦ v ]

-- A command `Status` with a failure that is not tolerated; 418 says that an added node exists.
unfoldable pub is_failure : Command → Bool
is_failure command =
    truthy command.value
    && (not (elim (after_prefix "2" command.value) [ none ↦ false | some rest ↦ true ])
        && not (str_eq command.value "418"))

unfoldable pub record_failures : SyncMlMessage → DmSession → DmSession
unfolding is_failure of_names
record_failures message session = record session {
  reported_failures =
      session.reported_failures
      + length (keep is_failure (of_names ("Status" ∷ []) message.commands));
}

module _ (settings : DmSettings) (outside : DmOutside) (tree : List MoNode) where
  unfoldable pub max_msg_size : SyncMlMessage → ℕ
  max_msg_size message =
      if message.header.max_msg_size == 0
      then settings.dm_max_msg_size
      else min settings.dm_max_msg_size message.header.max_msg_size

  unfoldable pub frame : SyncMlMessage → DmSession → Frame
  unfolding max_msg_size
  frame message session = record {
    session_id = message.header.session_id;
    msg_id = elim message.header.msg_number [ none ↦ 1 | some n ↦ n ];
    target = if truthy message.header.source then message.header.source else session.device_id;
    source = settings.dm_account_uri;
    max_msg_size = max_msg_size message;
  }

  -- The code and the challenge for an authenticated message.
  unfoldable pub header_status : DmSession → String × Option (String × String)
  header_status session = (
    if session.authenticated then "212" else "200",
    if session.authenticated && (str_eq settings.dm_auth_scheme "md5" && truthy session.nonce)
        then some (auth_md5, session.nonce)
        else none,
  )

  module _ (binary : Bool) (payload : Bytes) where
    -- The encoded message with the first entries of a queue.
    unfoldable pub build_message :
        SyncMlMessage
        → DmSession
        → (String × Option (String × String))
        → List Entry
        → ℕ
        → Result PackageError Bytes
    unfolding frame
    build_message message session (code, challenge) queue count = do
      calls ← apply (take count queue)
      outside.encode binary payload (frame message session)
          (record {
            msg_ref = message.header.msg_id;
            code = code;
            target_ref = message.header.target;
            challenge = challenge;
          })
          calls (count == length queue)

    -- `_next_message` with the status and challenge given.
    unfoldable pub next_message_with :
        (String × Option (String × String))
        → SyncMlMessage
        → DmSession
        → List Entry
        → ℕ
        → Result PackageError (Bytes × List Entry)
    unfolding build_message
    next_message_with header message session queue required = do
      (body, sent) ←
          fill (build_message message session header queue) (length queue) (max_msg_size message)
            required
      ok (body, drop sent queue)

    unfoldable pub next_message :
        SyncMlMessage → DmSession → List Entry → ℕ → Result PackageError (Bytes × List Entry)
    unfolding next_message_with header_status
    next_message message session queue required =
        next_message_with (header_status session) message session queue required

  unfoldable pub lookup_password : MemoryStore → String → Option String
  lookup_password store username =
      if not (truthy username) then none else elim (get_subscriber store username) [
        | none ↦ none
        | some s ↦ if truthy s.dm_password then some s.dm_password else none
      ]

  -- The name that an MD5 credential is for.
  abbrev md5_username : SyncMlMessage → DmSession → String
  md5_username message session =
      if truthy message.header.source_name then message.header.source_name else session.imsi

  abbrev basic_check : MemoryStore → SyncMlMessage → DmSession → DmAuthResult
  basic_check store message session =
      authenticate outside.b64decode message.header.credentials auth_basic (lookup_password store)
        session.nonce outside.fresh_nonce

  unfoldable pub authenticate_message : MemoryStore → SyncMlMessage → DmSession → DmAuthResult
  unfolding lookup_password
  authenticate_message store message session =
      if str_eq settings.dm_auth_scheme "none"
      then authenticate outside.b64decode message.header.credentials "none" (λ u. none) ""
          outside.fresh_nonce
      else elim message.header.credentials [
        | none ↦ basic_check store message session
        | some credentials ↦
            if str_eq credentials.type_ auth_md5
            then authenticate_md5 outside.digest credentials (md5_username message session)
                (lookup_password store (md5_username message session)) session.nonce
                outside.fresh_nonce
            else basic_check store message session
      ]

  abbrev blank_device : String → Device
  blank_device device_id = record {
    device_id = device_id;
    imsi = "";
    manufacturer = "";
    model = "";
    sw_version = "";
    client_vendor = "";
    client_version = "";
    dm_client_version = "";
    last_seen_at = outside.clock;
    mo_values = Dict.empty;
  }

  unfoldable pub absorb_device_values : MemoryStore → SyncMlMessage → DmSession → Device
  unfolding absorb_commands of_names
  absorb_device_values store message session =
      let device_id = if truthy session.device_id then session.device_id else "unknown" in
      let device = elim (get_device store device_id) as (λ _. Device) [
        | some known ↦ known
        | none ↦ blank_device device_id
      ] in
      let values =
        absorb_commands tree device.mo_values
          (of_names ("Replace" ∷ "Results" ∷ "Add" ∷ []) message.commands) in
      record device {
        imsi = if truthy session.imsi then session.imsi else device.imsi;
        mo_values = values;
        manufacturer = value_or values "./DevInfo/Man" device.manufacturer;
        model = value_or values "./DevInfo/Mod" device.model;
        dm_client_version = value_or values "./DevInfo/DmV" device.dm_client_version;
        sw_version = value_or values "./DevDetail/SwV" device.sw_version;
        last_seen_at = outside.clock;
      }
