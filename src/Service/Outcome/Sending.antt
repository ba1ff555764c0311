-- ===== src/Service/Outcome/Sending.antt =====
-- src/acs/domain/service.py: what a challenge and a version answer leave in the store.
use auto_configuration_serve.Prelude.{
  ℕ, String, ◌≡◌, ◌⊎◌, refl, eq_refl, Bool, true, false, Option, none, some, arith, text_or,
  if◌then◌else◌, ok,
}
use auto_configuration_serve.Prelude.Int.{ℤ, pos, leb_ℤ}
use auto_configuration_serve.Models.{Subscriber, OtpChallenge, same_issue}
use auto_configuration_serve.Store.{MemoryStore, get_otp, put_subscriber, replace_otp}
use auto_configuration_serve.Store.Otps.{replace_otp_won, replace_otp_wins, unchanged_refl}
use auto_configuration_serve.Vers.{next_version, client_holds_current}
use auto_configuration_serve.Otp.{
  created, alone, discard_round, conclude_discard, discard_loop, discard_challenge,
  create_challenge,
}
use auto_configuration_serve.Identity.{IdentityMethod}
use auto_configuration_serve.Service.{
  Settings, ConfigQuery, Outside, ProvisioningOutcome, vers_only, SendOutcome, sent,
  delivery_failed, unsupported_delivery,
}
use auto_configuration_serve.Service.Outcome.{
  serve_configuration, serve_version, serve_document, positive_version, served, send_otp,
  after_create, after_send, pending, port_of,
}

same_issue_refl : (c : OtpChallenge) → same_issue c c ≡ true
unfolding same_issue
same_issue_refl c = ground (arith, eq_refl c.challenge_id, eq_refl c.otp_hash)

discard_round-won :
    (challenge c : OtpChallenge) (store : MemoryStore) (next : MemoryStore → MemoryStore × Bool)
    → same_issue c challenge ≡ true
    → (replace_otp store c none).1 ≡ true
    → (discard_round challenge (some c) store store next).0 ≡ (replace_otp store c none).0
unfolding discard_round conclude_discard
discard_round-won challenge c store next h w = ground arith

-- Alone, a stored challenge is discarded.
discard_challenge-alone :
    (store : MemoryStore) (c : OtpChallenge)
    → get_otp store c.msisdn ≡ some c
    → get_otp (discard_challenge alone store c).0 c.msisdn ≡ none
unfolding discard_challenge discard_loop
discard_challenge-alone store c h =
    let w = replace_otp_wins store c none c h (unchanged_refl c) in
    let (cur, a, b, e) = replace_otp_won store c none w in
    let done = discard_round-won c c store (discard_loop alone c 4) (same_issue_refl c) w in
    rw (h, done) e

module _ (settings : Settings) (outside : Outside) where
  abbrev delivered : SendOutcome → Bool
  delivered sent = true
  delivered delivery_failed = false
  delivered unsupported_delivery = false

  after_send-alone :
      (c : OtpChallenge) (store : MemoryStore) (o : SendOutcome)
      → outside.others ≡ alone
      → get_otp store c.msisdn ≡ some c
      → ((after_send settings outside c (store, o)).1.status_code
          ≡ (if delivered o then 200 else 503))
        × (get_otp (after_send settings outside c (store, o)).0 c.msisdn
            ≡ (if delivered o then some c else none))
  unfolding after_send pending
  after_send-alone c store sent a h = (refl, h)
  after_send-alone c store delivery_failed a h = (refl, rw a (discard_challenge-alone store c h))
  after_send-alone c store unsupported_delivery a h =
      (refl, rw a (discard_challenge-alone store c h))

  -- When nobody else acts on the store and the sender leaves the new challenge where it is: a
  -- challenge that `create_challenge` made stays stored, and the answer is 200, if its code was
  -- delivered; if the delivery failed or is unsupported the challenge is taken back and the answer
  -- is 503, so no challenge is left whose code nobody received.
  pub send_otp_delivery :
      (store stored handed : MemoryStore) (s : Subscriber) (candidate : Option String)
      (query : ConfigQuery) (c : OtpChallenge) (code : String) (o : SendOutcome)
      → outside.others ≡ alone
      → create_challenge outside.digest outside.issue outside.draws store outside.clock
          (text_or candidate s.msisdn)
          s.imsi
          settings.otp_policy
          (port_of query)
          none
        ≡ (stored, created c code)
      → outside.send
          (record {
            msisdn = text_or candidate s.msisdn;
            body = outside.otp_text code;
            sms_port = port_of query;
            sender_id = settings.sms_sender_id;
          })
          stored
        ≡ (handed, o)
      → get_otp handed c.msisdn ≡ some c
      → ((send_otp settings outside store s candidate query).1.status_code
          ≡ (if delivered o then 200 else 503))
        × (get_otp (send_otp settings outside store s candidate query).0 c.msisdn
            ≡ (if delivered o then some c else none))
  unfolding send_otp after_create
  send_otp_delivery store stored handed s candidate query c code o a made given_over h =
      rw (made, given_over) (after_send-alone c handed o a h)

  -- A configuration answer that carries a version alone issues no token and records no device: it
  -- is the subscriber's forced version, with the store left as it was, or, for a subscriber with no
  -- forced version, a positive version that the client holds already.
  pub serve_configuration_version :
      (store after : MemoryStore) (s : Subscriber) (query : ConfigQuery) (m : IdentityMethod)
      (outcome : ProvisioningOutcome) (v : ℤ) (validity : ℕ)
      → serve_configuration settings outside store s query m ≡ (after, ok outcome)
      → outcome.body ≡ vers_only v validity
      → (after.tokens ≡ store.tokens)
        × (after.devices ≡ store.devices)
        × ((s.forced_vers ≡ some v × after ≡ store)
            ⊎ (s.forced_vers ≡ none
                × client_holds_current query.vers v ≡ true
                × leb_ℤ v (pos 0) ≡ false))
  unfolding serve_configuration serve_version serve_document served positive_version next_version
      put_subscriber
  serve_configuration_version store after s query m outcome v validity e b = ground arith
