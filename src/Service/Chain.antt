-- ===== src/Service/Chain.antt =====
-- src/acs/domain/service.py, `resolve_identity`: the ordered chain that decides who is asking.
pub mod Proven
use Prim.Native.Char.{Char, code}
use Prim.Native.String.{◌++◌ as str_append}
use auto_configuration_serve.Prelude.{
  ℕ, String, Bool, true, false, Option, none, some, List, [], ◌∷◌, not, ◌&&◌, ◌==◌, str_eq, truthy,
  given, text_or, Result, ok, raise, if◌then◌else◌,
}
use auto_configuration_serve.Prelude.Int.{ℤ, pos, leb_ℤ}
use auto_configuration_serve.Prelude.Dict
use auto_configuration_serve.Prelude.Dict.{Dict}
use auto_configuration_serve.Models.{Subscriber, OtpChallenge, Device, TokenRecord, imei_allowed}
use auto_configuration_serve.Store.{
  MemoryStore, get_subscriber, get_subscriber_by_msisdn, put_subscriber, get_device, put_device,
  OtpIssueRefused, RefusalReason, cooldown, daily_quota,
}
use auto_configuration_serve.Vers.{
  VersError, VersRule, VersAction, rule_for, next_version, client_holds_current,
}
use auto_configuration_serve.Token.{issue_token, verify_token}
use auto_configuration_serve.Otp.{
  OtpPolicy, OtpOutcome, verified, no_challenge, expired_code, mismatch, exhausted,
  already_consumed, Draws, IssueMethod, Interference, Created, created, send_blocked,
  store_contention, create_challenge, verify_challenge, discard_challenge,
}
use auto_configuration_serve.Identity.{
  Identity, IdentityMethod, token, enrichment, gba, otp, no_method, authenticated, challenge_otp,
  unresolved, not_entitled, authenticated_as, challenge_for, unresolved_because, refused_because,
  EnrichmentResult, NafKeys, AuthorizationCheck,
}
use auto_configuration_serve.Service.{Settings, ConfigQuery, Outside}

-- The part of an IMPI before its first `@`.
unfoldable pub user_part : String → String
user_part String.[] = String.[]
user_part (String.◌∷◌ c s) =
    let rest = user_part s in if code c == 64 then String.[] else String.◌∷◌ c rest

unfoldable pub candidate_by_msisdn : MemoryStore → ConfigQuery → Option Subscriber
candidate_by_msisdn store query = elim query.msisdn [
  | none ↦ none
  | some msisdn ↦ if truthy msisdn then get_subscriber_by_msisdn store msisdn else none
]

unfoldable pub lookup_candidate : MemoryStore → ConfigQuery → Option Subscriber
unfolding candidate_by_msisdn
lookup_candidate store query = elim query.imsi [
  | none ↦ candidate_by_msisdn store query
  | some imsi ↦
      if not (truthy imsi)
      then candidate_by_msisdn store query
      else elim (get_subscriber store imsi) [
        | some subscriber ↦ some subscriber
        | none ↦ candidate_by_msisdn store query
      ]
]

abbrev pub outcome_text : OtpOutcome → String
outcome_text verified = "verified"
outcome_text no_challenge = "no_challenge"
outcome_text expired_code = "expired"
outcome_text mismatch = "mismatch"
outcome_text exhausted = "exhausted"
outcome_text already_consumed = "consumed"

module _ (settings : Settings) (outside : Outside) where
  -- Steps 1 to 3 of the chain: a token, a trusted header, GBA. `none` goes on to the next step.
  unfoldable pub resolve_token : MemoryStore → ConfigQuery → Option Identity
  unfolding authenticated_as unresolved_because refused_because
  resolve_token store query = elim query.token [
    | none ↦ none
    | some t ↦
        if not (truthy t)
        then none
        else elim (verify_token outside.digest store outside.clock t query.imei
            settings.token_bind_imei) [
              | none ↦ some (unresolved_because "token_invalid")
              | some r ↦ elim (get_subscriber store r.imsi) [
                | none ↦ some (unresolved_because "token_orphaned")
                | some subscriber ↦
                    if not subscriber.entitled
                    then some (refused_because subscriber "token_holder_not_entitled")
                    else some (authenticated_as subscriber token)
              ]
            ]
  ]

  unfoldable pub resolve_enriched : MemoryStore → Option Identity
  unfolding authenticated_as unresolved_because refused_because
  resolve_enriched store = elim outside.enriched.msisdn [
    | none ↦ none
    | some msisdn ↦
        if not (truthy msisdn) then none else elim (get_subscriber_by_msisdn store msisdn) [
          | none ↦ some (unresolved_because "enriched_msisdn_unknown")
          | some subscriber ↦
              if not subscriber.entitled
              then some (refused_because subscriber "enriched_not_entitled")
              else some (authenticated_as subscriber enrichment)
        ]
  ]

  unfoldable pub resolve_gba : MemoryStore → Option Identity
  unfolding authenticated_as unresolved_because refused_because user_part
  resolve_gba store = elim outside.bsf [
    | none ↦ none
    | some fetch_keys ↦ if not settings.gba_enabled then none else elim outside.authorization [
      | none ↦ none
      | some check ↦
          if not check.passed
          then some (unresolved_because (str_append "gba_" check.reason))
          else elim (fetch_keys check.btid settings.gba_realm) [
            | none ↦ some (unresolved_because "gba_btid_unknown")
            | some keys ↦ elim (get_subscriber store (user_part keys.impi)) [
              | none ↦ some (unresolved_because "gba_subscriber_unknown")
              | some subscriber ↦
                  if not subscriber.entitled
                  then some (refused_because subscriber "gba_not_entitled")
                  else some (authenticated_as subscriber gba)
            ]
          ]
    ]
  ]

  -- Steps 5 and 6: the code is checked, or asked for.
  unfoldable pub resolve_otp : MemoryStore → ConfigQuery → Subscriber → MemoryStore × Identity
  unfolding authenticated_as unresolved_because challenge_for
  resolve_otp store query subscriber = elim query.otp [
    | none ↦ (store, challenge_for subscriber subscriber.msisdn "bootstrap")
    | some given_otp ↦
        if not (truthy given_otp)
        then (store, challenge_for subscriber subscriber.msisdn "bootstrap")
        else (let (store', outcome) =
              verify_challenge outside.digest outside.others store outside.clock subscriber.msisdn
                given_otp settings.otp_policy none in
            (
              store',
              elim outcome [
                | verified ↦ authenticated_as subscriber otp
                | failed ↦ unresolved_because (str_append "otp_" (outcome_text failed))
              ],
            ))
  ]

  -- Step 4: the claimed identifiers name a candidate.
  unfoldable pub resolve_candidate : MemoryStore → ConfigQuery → MemoryStore × Identity
  unfolding lookup_candidate resolve_otp unresolved_because refused_because
  resolve_candidate store query = elim (lookup_candidate store query) [
    | none ↦ (store, unresolved_because "subscriber_unknown")
    | some subscriber ↦
        if not subscriber.entitled
        then (store, refused_because subscriber "not_entitled")
        else if not (imei_allowed subscriber query.imei)
        then (store, refused_because subscriber "imei_not_allowed")
        else resolve_otp store query subscriber
  ]

  unfoldable pub resolve_identity : MemoryStore → ConfigQuery → MemoryStore × Identity
  unfolding resolve_token resolve_enriched resolve_gba resolve_candidate
  resolve_identity store query = elim (resolve_token store query) [
    | some identity ↦ (store, identity)
    | none ↦ elim (resolve_enriched store) [
      | some identity ↦ (store, identity)
      | none ↦ elim (resolve_gba store) [
        | some identity ↦ (store, identity)
        | none ↦ resolve_candidate store query
      ]
    ]
  ]
