-- ===== src/Service/Outcome/Answers.antt =====
-- src/acs/domain/service.py: what the outcome of a request says about the identity behind it.
use auto_configuration_serve.Prelude.{
  String, ◌≡◌, ◌≢◌, refl, sym, ap, true, false, Option, none, some, arith, truthy, ok, not, given,
  same_text?, eq_refl, ◌||◌, ◌<◌, ◌+◌, if◌then◌else◌, ◌∙◌,
}
use auto_configuration_serve.Prelude.Int.{pos, leb_ℤ}
use auto_configuration_serve.Models.{Subscriber, OtpChallenge, TokenRecord}
use auto_configuration_serve.Store.{MemoryStore, get_token, put_device, put_subscriber}
use auto_configuration_serve.Vers.{next_version, client_holds_current}
use auto_configuration_serve.Token.{issue_token, verify_token}
use auto_configuration_serve.Token.RoundTrip.{verify_token-issue_token}
use auto_configuration_serve.Otp.{Created, created, send_blocked, store_contention}
use auto_configuration_serve.Identity.{Identity, IdentityMethod, authenticated, authenticated_as}
use auto_configuration_serve.Service.{
  Settings, ConfigQuery, Outside, ProvisioningOutcome, ConfigDocument, configuration, no_body,
  SendOutcome, sent, delivery_failed, unsupported_delivery,
}
use auto_configuration_serve.Service.Chain.{resolve_identity}
use auto_configuration_serve.Service.Chain.Proven.{Evidence, resolve_identity_authenticated}
use auto_configuration_serve.Service.Outcome.{
  outcome_for, handle, serve_configuration, serve_version, serve_document, send_otp, after_create,
  after_send, unresolved_outcome, pending, served, with_dm_password, positive_version,
  record_device,
}

module _ (settings : Settings) (outside : Outside) where
  after_send_body :
      (challenge : OtpChallenge) (p : MemoryStore × SendOutcome)
      → (after_send settings outside challenge p).1.body ≡ no_body
  unfolding after_send pending
  after_send_body challenge (store, sent) = refl
  after_send_body challenge (store, delivery_failed) = refl
  after_send_body challenge (store, unsupported_delivery) = refl

  after_create_body :
      (query : ConfigQuery) (msisdn : String) (p : MemoryStore × Created)
      → (after_create settings outside query msisdn p).1.body ≡ no_body
  unfolding after_create pending
  after_create_body query msisdn (store, created c code) = after_send_body c _
  after_create_body query msisdn (store, store_contention) = refl
  after_create_body query msisdn (store, send_blocked refusal) = ground arith

  outcome_for_authenticated :
      (identity : Identity) (store after : MemoryStore) (query : ConfigQuery)
      (outcome : ProvisioningOutcome)
      → outcome_for settings outside identity store query ≡ (after, ok outcome)
      → outcome.body ≢ no_body
      → identity.decision ≡ authenticated
  unfolding outcome_for unresolved_outcome send_otp
  outcome_for_authenticated identity store after query outcome e b =
      grind (arith, after_create_body)

  serve_document-mine :
      (store after : MemoryStore) (s : Subscriber) (query : ConfigQuery) (m : IdentityMethod)
      (outcome : ProvisioningOutcome) (document : ConfigDocument)
      → serve_document settings outside store s query m ≡ (after, outcome)
      → outcome.body ≡ configuration document
      → (document.imsi ≡ s.imsi)
        × (document.msisdn ≡ s.msisdn)
        × (document.version ≡ s.provisioning_version)
        × (document.token ≡ outside.fresh_token)
        × (verify_token outside.digest after outside.clock outside.fresh_token query.imei
              settings.token_bind_imei
            ≡ verify_token outside.digest
                (issue_token outside.digest outside.fresh_token store outside.clock s.imsi
                  query.imei settings.token_ttl_seconds settings.token_bind_imei).0
                outside.clock
                outside.fresh_token
                query.imei
                settings.token_bind_imei)
  unfolding serve_document with_dm_password record_device served issue_token put_device
      put_subscriber verify_token get_token
  serve_document-mine store after s query m outcome document e b = ground arith

  same_handset : (imei : Option String) → (not (given imei) || same_text? imei imei) ≡ true
  same_handset none = refl
  same_handset (some a) = ground (arith, eq_refl a)

  issued_token_accepted :
      (store : MemoryStore) (imsi : String) (imei : Option String)
      → truthy outside.fresh_token ≡ true
      → 0 < settings.token_ttl_seconds
      → verify_token outside.digest
          (issue_token outside.digest outside.fresh_token store outside.clock imsi imei
            settings.token_ttl_seconds settings.token_bind_imei).0
          outside.clock
          outside.fresh_token
          imei
          settings.token_bind_imei
        ≡ some (record {
          token_hash = outside.digest outside.fresh_token;
          imsi = imsi;
          imei = if settings.token_bind_imei then imei else none;
          issued_at = outside.clock;
          expires_at = outside.clock + settings.token_ttl_seconds;
          revoked = false;
        })
  issued_token_accepted store imsi imei h ttl = ground (
    arith,
    verify_token-issue_token outside.digest outside.fresh_token store outside.clock outside.clock
        imsi imei imei settings.token_ttl_seconds settings.token_bind_imei h,
    same_handset imei,
  )

  positive_version-positive :
      (store : MemoryStore) (s : Subscriber)
      → leb_ℤ (positive_version settings outside store s).1.provisioning_version (pos 0) ≡ false
  unfolding positive_version next_version
  positive_version-positive store s = ground arith

  -- A document served to a request: it is the subscriber's, its version is positive and not the one
  -- that the client holds, and its token is accepted from the request's handset for the subscriber.
  pub record IsServed (after : MemoryStore) (s : Subscriber) (query : ConfigQuery)
      (d : ConfigDocument) : Type 0 where
    pub mine : d.imsi ≡ s.imsi
    pub number : d.msisdn ≡ s.msisdn
    pub positive : leb_ℤ d.version (pos 0) ≡ false
    pub newer : client_holds_current query.vers d.version ≡ false
    pub accepted :
        (r : TokenRecord) × (verify_token outside.digest after outside.clock d.token query.imei
            settings.token_bind_imei
          ≡ some r)
        × (r.imsi ≡ s.imsi)

  module _ (lives : 0 < settings.token_ttl_seconds)
      (drawn : truthy outside.fresh_token ≡ true) where
    serve_version-IsServed :
        (store after : MemoryStore) (s : Subscriber) (query : ConfigQuery) (m : IdentityMethod)
        (outcome : ProvisioningOutcome) (d : ConfigDocument)
        → serve_version settings outside store s query m ≡ (after, outcome)
        → outcome.body ≡ configuration d
        → IsServed after s query d
    unfolding serve_version served
    serve_version-IsServed store after s query m outcome d e b =
        let p = positive_version settings outside store s in
        let q : client_holds_current query.vers p.1.provisioning_version ≡ false = ground arith in
        let same : p.1.imsi ≡ s.imsi × p.1.msisdn ≡ s.msisdn =
          unfold positive_version in ground arith in
        let (a, n, v, t, ver) =
          serve_document-mine p.0 after p.1 query m outcome d (ground arith) b in
        record {
          mine = a ∙ same.0;
          number = n ∙ same.1;
          positive = rw v (positive_version-positive store s);
          newer = rw v q;
          accepted =
              let ok_there = ver ∙ issued_token_accepted p.0 p.1.imsi query.imei drawn lives in
              (
                _,
                ap
                      (λ x.
                        verify_token outside.digest after outside.clock x query.imei
                          settings.token_bind_imei)
                      t
                    ∙ ok_there,
                same.0,
              );
        }

    outcome_for-authenticated_as :
        (store : MemoryStore) (s : Subscriber) (m : IdentityMethod) (query : ConfigQuery)
        → outcome_for settings outside (authenticated_as s m) store query
          ≡ serve_configuration settings outside store s query m
    unfolding outcome_for authenticated_as
    outcome_for-authenticated_as store s m query = refl

    serve_version-ok :
        (store : MemoryStore) (s : Subscriber) (query : ConfigQuery) (m : IdentityMethod)
        → (serve_version settings outside store s query m).1.status_code ≡ 200
    unfolding serve_version serve_document served
    serve_version-ok store s query m = ground arith

    serve_configuration-IsServed :
        (store after : MemoryStore) (s : Subscriber) (query : ConfigQuery) (m : IdentityMethod)
        (outcome : ProvisioningOutcome) (d : ConfigDocument)
        → serve_configuration settings outside store s query m ≡ (after, ok outcome)
        → outcome.body ≡ configuration d
        → (s.forced_vers ≡ none)
          × (serve_version settings outside store s query m ≡ (after, outcome))
    unfolding serve_configuration served
    serve_configuration-IsServed store after s query m outcome d e b = ground arith

    -- When tokens live for some time and the drawn token is not empty: a request that is answered
    -- with a configuration document is answered 200, and was authenticated, on the evidence of one
    -- of the four methods, as a subscriber that is entitled and has no forced version. The document
    -- carries the number and the IMSI of that subscriber, its version is positive and is not the one
    -- the client holds, and its token is accepted at once, from the same handset, for that subscriber.
    pub handle_configuration :
        (store after : MemoryStore) (query : ConfigQuery) (outcome : ProvisioningOutcome)
        (d : ConfigDocument)
        → handle settings outside store query ≡ (after, ok outcome)
        → outcome.body ≡ configuration d
        → (s : Subscriber) × (m : IdentityMethod) × (mid : MemoryStore) × Evidence settings outside
            store query s m mid
          × (s.entitled ≡ true)
          × (s.forced_vers ≡ none)
          × (outcome.status_code ≡ 200)
          × IsServed after s query d
    unfolding handle
    handle_configuration store after query outcome d e b =
        let r = resolve_identity settings outside store query in
        let ok_body : outcome.body ≢ no_body = ground arith in
        let decided = outcome_for_authenticated r.1 r.0 after query outcome e ok_body in
        let (s, m, i, entitled, evidence) =
          resolve_identity_authenticated settings outside store query decided in
        let f : outcome_for settings outside (authenticated_as s m) r.0 query
            ≡ (after, ok outcome) =
          rw i at e in
        let g : serve_configuration settings outside r.0 s query m ≡ (after, ok outcome) =
          sym (outcome_for-authenticated_as r.0 s m query) ∙ f in
        let (unforced, v) = serve_configuration-IsServed r.0 after s query m outcome d g b in
        (
          s,
          m,
          r.0,
          evidence,
          entitled,
          unforced,
          ap (λ o. o.1.status_code) (sym v) ∙ serve_version-ok r.0 s query m,
          serve_version-IsServed r.0 after s query m outcome d v b,
        )
