-- ===== src/Service/Outcome.antt =====
-- src/acs/domain/service.py: what is answered once the identity is decided. An exception that the
-- code does not handle leaves as `raise`.
pub mod Answers
pub mod Sending
use auto_configuration_serve.Prelude.{
  ℕ, zero, suc, String, Bool, true, false, Option, none, some, List, [], ◌∷◌, not, ◌&&◌, ◌==◌,
  str_eq, truthy, given, text_or, Result, ok, raise, if◌then◌else◌,
}
use auto_configuration_serve.Prelude.Int.{ℤ, pos, leb_ℤ}
use auto_configuration_serve.Prelude.Dict
use auto_configuration_serve.Models.{Subscriber, Device, OtpChallenge}
use auto_configuration_serve.Store.{
  MemoryStore, put_subscriber, get_device, put_device, cooldown, daily_quota,
}
use auto_configuration_serve.Vers.{
  VersError, action_value, rule_for, next_version, client_holds_current,
}
use auto_configuration_serve.Token.{issue_token}
use auto_configuration_serve.Otp.{
  Created, created, send_blocked, store_contention, create_challenge, discard_challenge,
}
use auto_configuration_serve.Identity.{
  Identity, IdentityMethod, method_value, authenticated, challenge_otp, unresolved, not_entitled,
}
use auto_configuration_serve.Service.{
  HandlerError, bad_version, no_subscriber, Settings, ConfigQuery, Outside, SmsRequest, SendOutcome,
  ConfigDocument, sent, delivery_failed, unsupported_delivery, ProvisioningOutcome, Body, no_body,
  vers_only, configuration, Header, no_store, content_length_zero, retry_after, www_authenticate,
  otp_delivery_failed_retry_after_seconds, otp_delivery_unsupported_retry_after_seconds,
  otp_store_contention_retry_after_seconds,
}
use auto_configuration_serve.Service.Chain.{resolve_identity}

abbrev plain_outcome : ℕ → List Header → (metric detail : String) → ProvisioningOutcome
plain_outcome status headers metric detail = record {
  status_code = status;
  body = no_body;
  content_type = "";
  headers = headers;
  metric = metric;
  detail = detail;
  version = none;
}

-- `text or default`
abbrev or_text : (text default : String) → String
or_text text default = if truthy text then text else default

-- `sms_port or None`
abbrev pub port_of : ConfigQuery → Option ℕ
port_of query = elim query.sms_port [ none ↦ none | some p ↦ if p == 0 then none else some p ]

module _ (settings : Settings) (outside : Outside) where
  unfoldable pub unresolved_outcome : Identity → ProvisioningOutcome
  unresolved_outcome identity = elim outside.bsf [
    | none ↦ plain_outcome 511 (no_store ∷ []) "Challenge511" (or_text identity.detail "unresolved")
    | some fetch_keys ↦
        if settings.gba_enabled
        then plain_outcome 401
            (no_store ∷ www_authenticate settings.gba_realm outside.fresh_nonce ∷ []) "GbaChallenge"
            identity.detail
        else plain_outcome 511 (no_store ∷ []) "Challenge511" (or_text identity.detail "unresolved")
  ]

  -- The empty 200 that tells the client to wait for a code.
  unfoldable pub pending : (metric detail : String) → ProvisioningOutcome
  pending metric detail = record {
    status_code = 200;
    body = no_body;
    content_type = settings.xml_content_type;
    headers = no_store ∷ content_length_zero ∷ [];
    metric = metric;
    detail = detail;
    version = none;
  }

  -- A challenge was stored: send its code, or take the challenge back.
  unfoldable pub after_send :
      OtpChallenge → MemoryStore × SendOutcome → MemoryStore × ProvisioningOutcome
  unfolding pending
  after_send challenge (store, sent) = (store, pending "OtpSent" "otp_sent")
  after_send challenge (store, delivery_failed) = (
    (discard_challenge outside.others store challenge).0,
    plain_outcome 503 (no_store ∷ retry_after otp_delivery_failed_retry_after_seconds ∷ [])
        "OtpDeliveryFailed" "otp_delivery_failed",
  )
  after_send challenge (store, unsupported_delivery) = (
    (discard_challenge outside.others store challenge).0,
    plain_outcome 503 (no_store ∷ retry_after otp_delivery_unsupported_retry_after_seconds ∷ [])
        "OtpDeliveryUnsupported" "port_addressed_sms_unsupported",
  )

  unfoldable pub after_create :
      ConfigQuery → String → MemoryStore × Created → MemoryStore × ProvisioningOutcome
  unfolding after_send
  after_create query msisdn (store, created challenge code) = after_send challenge (
      outside.send
        (record {
          msisdn = msisdn;
          body = outside.otp_text code;
          sms_port = port_of query;
          sender_id = settings.sms_sender_id;
        })
        store)
  after_create query msisdn (store, send_blocked refusal) = elim refusal.reason [
    | cooldown ↦ (store, pending "OtpPendingReuse" "cooldown")
    | daily_quota ↦ (
      store,
      plain_outcome 429 (no_store ∷ retry_after refusal.retry_after ∷ []) "OtpRateLimited"
          "daily_quota",
    )
  ]
  after_create query msisdn (store, store_contention) = (
    store,
    plain_outcome 503 (no_store ∷ retry_after otp_store_contention_retry_after_seconds ∷ [])
        "OtpStoreContention" "otp_store_contention",
  )

  unfoldable pub send_otp :
      MemoryStore → Subscriber → Option String → ConfigQuery → MemoryStore × ProvisioningOutcome
  unfolding after_create
  send_otp store subscriber candidate_msisdn query =
      let msisdn = text_or candidate_msisdn subscriber.msisdn in
      after_create query msisdn (
        create_challenge outside.digest outside.issue outside.draws store outside.clock msisdn
          subscriber.imsi settings.otp_policy (port_of query) none)

  -- `imei or device_id or (imsi or "unknown")`
  unfoldable pub device_key : ConfigQuery → String
  device_key query = text_or query.imei (text_or query.device_id (text_or query.imsi "unknown"))

  unfoldable pub record_device : MemoryStore → Subscriber → ConfigQuery → MemoryStore
  unfolding device_key
  record_device store subscriber query =
      let id = device_key query in
      let device = elim (get_device store id) as (λ d. Device) [
        | some existing ↦ existing
        | none ↦ record {
          device_id = id;
          imsi = "";
          manufacturer = "";
          model = "";
          sw_version = "";
          client_vendor = "";
          client_version = "";
          dm_client_version = "";
          last_seen_at = outside.clock;
          mo_values = Dict.empty;
        }
      ] in
      put_device store (record device {
        imsi = subscriber.imsi;
        manufacturer = text_or query.terminal_vendor device.manufacturer;
        model = text_or query.terminal_model device.model;
        sw_version = text_or query.terminal_sw_version device.sw_version;
        client_vendor = text_or query.client_vendor device.client_vendor;
        client_version = text_or query.client_version device.client_version;
        last_seen_at = outside.clock;
      })

  unfoldable pub served : Body → (metric detail : String) → ℤ → ProvisioningOutcome
  served body metric detail version = record {
    status_code = 200;
    body = body;
    content_type = settings.xml_content_type;
    headers = no_store ∷ [];
    metric = metric;
    detail = detail;
    version = some version;
  }

  -- A stored version that is not positive is replaced, and the record stored again.
  unfoldable pub positive_version : MemoryStore → Subscriber → MemoryStore × Subscriber
  positive_version store subscriber =
      if leb_ℤ subscriber.provisioning_version (pos 0)
      then (let subscriber' = record subscriber {
        provisioning_version = next_version subscriber.provisioning_version;
      } in
          (put_subscriber store subscriber', subscriber'))
      else (store, subscriber)

  unfoldable pub with_dm_password : MemoryStore → Subscriber → MemoryStore × Subscriber
  with_dm_password store subscriber =
      if settings.dm_enabled && (settings.dm_bootstrap_in_cp && not (truthy subscriber.dm_password))
      then (let subscriber' = record subscriber { dm_password = outside.fresh_password } in
          (put_subscriber store subscriber', subscriber'))
      else (store, subscriber)

  -- The whole document: a token is issued, a DM password made sure of, the device recorded.
  unfoldable pub serve_document :
      MemoryStore → Subscriber → ConfigQuery → IdentityMethod → MemoryStore × ProvisioningOutcome
  unfolding with_dm_password record_device served
  serve_document store subscriber query method =
      let (with_token, fresh) =
        issue_token outside.digest outside.fresh_token store outside.clock subscriber.imsi
          query.imei settings.token_ttl_seconds settings.token_bind_imei in
      let (with_password, subscriber') = with_dm_password with_token subscriber in
      let document : ConfigDocument = record {
        imsi = subscriber'.imsi;
        msisdn = subscriber'.msisdn;
        version = subscriber'.provisioning_version;
        validity = settings.provisioning_validity_seconds;
        profile =
            if truthy subscriber'.rcs_profile
            then subscriber'.rcs_profile
            else text_or query.rcs_profile settings.default_rcs_profile;
        token = fresh;
        overrides = subscriber'.overrides;
        dm_password = subscriber'.dm_password;
      } in
      (
        record_device with_password subscriber' query,
        served (configuration document) "ConfigServed" (method_value method)
            subscriber'.provisioning_version,
      )

  unfoldable pub serve_version :
      MemoryStore → Subscriber → ConfigQuery → IdentityMethod → MemoryStore × ProvisioningOutcome
  unfolding positive_version serve_document served
  serve_version store subscriber query method =
      let (store', subscriber') = positive_version store subscriber in
      let version = subscriber'.provisioning_version in
      if client_holds_current query.vers version
      then (
        store',
        served (vers_only version settings.provisioning_validity_seconds) "ConfigUnchanged"
            "vers_only" version,
      )
      else serve_document store' subscriber' query method

  unfoldable pub serve_configuration :
      MemoryStore
      → Subscriber
      → ConfigQuery
      → IdentityMethod
      → MemoryStore × Result HandlerError ProvisioningOutcome
  unfolding serve_version served
  serve_configuration store subscriber query method = elim subscriber.forced_vers [
    | none ↦
        (let (store', outcome) = serve_version store subscriber query method in
          (store', ok outcome))
    | some forced ↦ elim (rule_for forced) [
      | raise e ↦ (store, raise (bad_version e))
      | ok rule ↦ (
        store,
        ok (
            served (vers_only forced settings.provisioning_validity_seconds) "ConfigDisabled"
              (action_value rule.action) forced),
      )
    ]
  ]

  -- The outcome for a decided identity. For a challenge and an authenticated identity the code
  -- asserts that there is a subscriber.
  unfoldable pub outcome_for :
      Identity → MemoryStore → ConfigQuery → MemoryStore × Result HandlerError ProvisioningOutcome
  unfolding unresolved_outcome send_otp serve_configuration
  outcome_for identity store query = elim identity.decision [
    | not_entitled ↦ (
      store,
      ok (plain_outcome 403 (no_store ∷ []) "Rejected403" (or_text identity.detail "not_entitled")),
    )
    | unresolved ↦ (store, ok (unresolved_outcome identity))
    | challenge_otp ↦ elim identity.subscriber [
      | none ↦ (store, raise no_subscriber)
      | some s ↦
          (let (store', outcome) = send_otp store s identity.candidate_msisdn query in
            (store', ok outcome))
    ]
    | authenticated ↦ elim identity.subscriber [
      | none ↦ (store, raise no_subscriber)
      | some s ↦ serve_configuration store s query identity.method
    ]
  ]

  unfoldable pub handle :
      MemoryStore → ConfigQuery → MemoryStore × Result HandlerError ProvisioningOutcome
  unfolding resolve_identity outcome_for
  handle store query =
      let (store', identity) = resolve_identity settings outside store query in
      outcome_for identity store' query
