-- ===== src/Admin/Effects.antt =====
-- src/acs/api/admin.py: what the admin API's operations mean for the requests that come after them.
use auto_configuration_serve.Prelude.{
  ℕ, zero, suc, ◌≡◌, refl, String, Bool, true, false, Option, none, some, arith, ok, Option-cases,
  inl, inr,
}
use auto_configuration_serve.Prelude.Int.{ℤ, pos, negsuc, ◌≤ℤ◌}
use auto_configuration_serve.Prelude.Dict
use auto_configuration_serve.Prelude.Dict.{get-put_self, get-pop_self}
use auto_configuration_serve.Models.{Subscriber}
use auto_configuration_serve.Store.{
  MemoryStore, get_subscriber, put_subscriber, delete_subscriber, get_token, revoke_tokens_for_imsi,
}
use auto_configuration_serve.Store.Subscribers.{IsIndexed}
use auto_configuration_serve.Vers.{
  VersRule, action_value, forceable_versions, client_holds_current, rule_for,
}
use auto_configuration_serve.Vers.Rules.{next_version_grows}
use auto_configuration_serve.Token.{verify_token}
use auto_configuration_serve.Token.RoundTrip.{names, names-verify_token}
use auto_configuration_serve.Identity.{IdentityMethod}
use auto_configuration_serve.Service.{
  Settings, Outside, ConfigQuery, vers_only, ProvisioningOutcome,
}
use auto_configuration_serve.Service.Outcome.{serve_configuration, served}
use auto_configuration_serve.Admin.{
  load, disable_subscriber, invalidate_configuration, remove, is_forceable,
}

-- A disabled subscriber: its new record, and the store that is left.
disable_subscriber-ok :
    (store after : MemoryStore) (imsi : String) (vers : ℤ) (s : Subscriber)
    → IsIndexed store
    → disable_subscriber store imsi vers ≡ (after, ok s)
    → (s.imsi ≡ imsi)
      × (s.forced_vers ≡ some vers)
      × (is_forceable vers forceable_versions ≡ true)
      × (after ≡ (revoke_tokens_for_imsi (put_subscriber store s) imsi).0)
unfolding disable_subscriber load get_subscriber
disable_subscriber-ok store after imsi vers s v e =
    elim (Option-cases (Dict.get store.subscribers imsi)) [
      | inl a ↦ absurd (ground arith)
      | inr (old, a) ↦ ground (arith, v.keyed imsi old a)
    ]

get_subscriber-disabled :
    (store : MemoryStore) (s : Subscriber) (imsi : String)
    → s.imsi ≡ imsi
    → get_subscriber (revoke_tokens_for_imsi (put_subscriber store s) imsi).0 imsi ≡ some s
unfolding get_subscriber put_subscriber revoke_tokens_for_imsi
get_subscriber-disabled store s imsi own =
    ground (arith, own, get-put_self store.subscribers s.imsi s)

verify_token-put_subscriber :
    (digest : String → String) (store : MemoryStore) (s : Subscriber) (clock : ℕ) (t : String)
    (imei : Option String) (bind : Bool)
    → verify_token digest (put_subscriber store s) clock t imei bind
      ≡ verify_token digest store clock t imei bind
unfolding verify_token get_token put_subscriber
verify_token-put_subscriber digest store s clock t imei bind = refl

rule_for-forceable :
    (v : ℤ) → is_forceable v forceable_versions ≡ true → (rule : VersRule) × (rule_for v ≡ ok rule)
unfolding is_forceable forceable_versions rule_for
rule_for-forceable (pos zero) h = (_, refl)
rule_for-forceable (pos (suc n)) h = absurd (ground arith)
rule_for-forceable (negsuc zero) h = (_, refl)
rule_for-forceable (negsuc (suc zero)) h = (_, refl)
rule_for-forceable (negsuc (suc (suc zero))) h = (_, refl)
rule_for-forceable (negsuc (suc (suc (suc zero)))) h = (_, refl)
rule_for-forceable (negsuc (suc (suc (suc (suc n))))) h = absurd (ground arith)

serve_configuration-forced :
    (settings : Settings) (outside : Outside) (store : MemoryStore) (s : Subscriber)
    (query : ConfigQuery) (m : IdentityMethod) (vers : ℤ) (rule : VersRule)
    → s.forced_vers ≡ some vers
    → rule_for vers ≡ ok rule
    → serve_configuration settings outside store s query m ≡ (
      store,
      ok (
          served settings outside
            (vers_only vers settings.provisioning_validity_seconds)
            "ConfigDisabled"
            (action_value rule.action)
            vers),
    )
unfolding serve_configuration
serve_configuration-forced settings outside store s query m vers rule forced known = cc

-- In a store whose subscriber index is true, once the admin API has disabled a subscriber with a
-- version, the subscriber is stored under its IMSI, no text of a token is accepted as a token of it,
-- whatever the times and handsets, and a configuration request as that subscriber is answered with
-- that version alone, with the store left as it is.
pub disable_subscriber_effect :
    (settings : Settings) (outside : Outside) (store after : MemoryStore) (imsi : String) (vers : ℤ)
    (s : Subscriber) (query : ConfigQuery) (m : IdentityMethod) (digest : String → String)
    (clock : ℕ) (t : String) (imei : Option String) (bind : Bool)
    → IsIndexed store
    → disable_subscriber store imsi vers ≡ (after, ok s)
    → (get_subscriber after imsi ≡ some s)
      × (names imsi (verify_token digest after clock t imei bind) ≡ false)
      × (answer : ProvisioningOutcome) × (serve_configuration settings outside after s query m
          ≡ (after, ok answer))
      × (answer.body ≡ vers_only vers settings.provisioning_validity_seconds)
unfolding served
disable_subscriber_effect settings outside store after imsi vers s query m digest clock t imei bind
      v e =
    let (own, forced, table, left) = disable_subscriber-ok store after imsi vers s v e in
    let (rule, known) = rule_for-forceable vers table in
    (
      rw left (get_subscriber-disabled store s imsi own),
      rw left (names-verify_token digest (put_subscriber store s) imsi clock t imei bind),
      served settings outside (vers_only vers settings.provisioning_validity_seconds)
          "ConfigDisabled" (action_value rule.action) vers,
      serve_configuration-forced settings outside after s query m vers rule forced known,
      refl,
    )

get_subscriber-deleted :
    (store : MemoryStore) (imsi : String)
    → get_subscriber (delete_subscriber store imsi) imsi ≡ none
unfolding get_subscriber delete_subscriber
get_subscriber-deleted store imsi = ground (arith, get-pop_self store.subscribers imsi)

verify_token-delete_subscriber :
    (digest : String → String) (store : MemoryStore) (imsi : String) (clock : ℕ) (t : String)
    (imei : Option String) (bind : Bool)
    → verify_token digest (delete_subscriber store imsi) clock t imei bind
      ≡ verify_token digest store clock t imei bind
unfolding verify_token get_token delete_subscriber
verify_token-delete_subscriber digest store imsi clock t imei bind =
    elim (Option-cases (Dict.get store.subscribers imsi)) [
      | inl a ↦ rw (a, delete_subscriber) refl
      | inr (s, a) ↦ rw (a, delete_subscriber) refl
    ]

-- Once the admin API has deleted a subscriber, no record is stored under its IMSI, and no text of a
-- token is accepted as a token of that IMSI, whatever the times and handsets, also when any
-- subscriber is stored next: one with the same IMSI does not inherit a token.
pub remove_effect :
    (store after : MemoryStore) (imsi : String) (s later : Subscriber) (digest : String → String)
    (clock : ℕ) (t : String) (imei : Option String) (bind : Bool)
    → remove store imsi ≡ (after, ok s)
    → (get_subscriber after imsi ≡ none)
      × (names imsi (verify_token digest after clock t imei bind) ≡ false)
      × (names imsi (verify_token digest (put_subscriber after later) clock t imei bind) ≡ false)
unfolding remove load get_subscriber
remove_effect store after imsi s later digest clock t imei bind e =
    elim (Option-cases (Dict.get store.subscribers imsi)) [
      | inl a ↦ absurd (ground arith)
      | inr (old, a) ↦
          let revoked = (revoke_tokens_for_imsi store imsi).0 in
          let left : after ≡ delete_subscriber revoked imsi = ground arith in
          let refused : names imsi (verify_token digest after clock t imei bind) ≡ false =
            rw (left, verify_token-delete_subscriber digest revoked imsi clock t imei bind)
              (names-verify_token digest store imsi clock t imei bind) in
          (
            rw left (get_subscriber-deleted revoked imsi),
            refused,
            rw (verify_token-put_subscriber digest after later clock t imei bind) refused,
          )
    ]

-- The operations that bump the version, on a subscriber that is stored: afterwards no client that
-- held the old version, or a lower one, is answered that its configuration is current, and no
-- forced version is in the way.
pub invalidate_configuration_effect :
    (store after : MemoryStore) (imsi : String) (old s : Subscriber) (held : ℤ)
    → IsIndexed store
    → get_subscriber store imsi ≡ some old
    → held ≤ℤ old.provisioning_version
    → invalidate_configuration store imsi ≡ (after, ok s)
    → (get_subscriber after imsi ≡ some s)
      × (s.forced_vers ≡ none)
      × (pos 1 ≤ℤ s.provisioning_version)
      × (client_holds_current held s.provisioning_version ≡ false)
unfolding invalidate_configuration load get_subscriber put_subscriber
invalidate_configuration_effect store after imsi old s held v there le e = ground (
  arith,
  v.keyed imsi old there,
  get-put_self store.subscribers s.imsi s,
  next_version_grows held old.provisioning_version le,
)
