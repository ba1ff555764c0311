-- ===== src/Vers.antt =====
-- src/acs/protocol/vers.py: what each configuration version tells the client to do.
pub mod Rules
mod Runs
use auto_configuration_serve.Prelude.{
  ℕ, zero, suc, String, Bool, true, false, Option, none, some, List, [], ◌∷◌, map, ◌&&◌, Result, ok,
  raise, if◌then◌else◌,
}
use auto_configuration_serve.Prelude.Int.{ℤ, pos, negsuc, ltb_ℤ, leb_ℤ, eqb_ℤ, suc_ℤ}

pub data VersAction : Type 0 where
  apply disable_keep disable_delete_retry disable_delete_no_retry dormant blocked : VersAction

-- The value of an action, a text of the `StrEnum`.
abbrev pub action_value : VersAction → String
action_value apply = "apply"
action_value disable_keep = "disable_keep"
action_value disable_delete_retry = "disable_delete_retry"
action_value disable_delete_no_retry = "disable_delete_no_retry"
action_value dormant = "dormant"
action_value blocked = "blocked"

-- The fields of a rule that decide something; the notes and references are texts for readers.
pub record VersRule : Type 0 where
  pub version : ℤ
  pub action : VersAction
  pub client_disabled : Bool
  pub delete_config : Bool
  pub may_requery : Bool
  pub verified : Bool

unfoldable pub vers_rules : List VersRule
vers_rules =
    record {
      version = pos 0;
      action = disable_keep;
      client_disabled = true;
      delete_config = false;
      may_requery = true;
      verified = true;
    }
    ∷ record {
      version = negsuc 0;
      action = disable_delete_retry;
      client_disabled = true;
      delete_config = true;
      may_requery = true;
      verified = false;
    }
    ∷ record {
      version = negsuc 1;
      action = disable_delete_no_retry;
      client_disabled = true;
      delete_config = true;
      may_requery = false;
      verified = false;
    }
    ∷ record {
      version = negsuc 2;
      action = dormant;
      client_disabled = true;
      delete_config = false;
      may_requery = true;
      verified = false;
    }
    ∷ record {
      version = negsuc 3;
      action = blocked;
      client_disabled = true;
      delete_config = false;
      may_requery = false;
      verified = false;
    }
    ∷ []

-- `_BY_VERSION.get(version)`: the versions of the table differ, so the first match is the only one.
unfoldable pub by_version : List VersRule → ℤ → Option VersRule
by_version [] version = none
by_version (rule ∷ rules) version =
    if eqb_ℤ rule.version version then some rule else by_version rules version

-- `sorted(_BY_VERSION, reverse=True)`: the versions from the highest down.
unfoldable pub insert_desc : ℤ → List ℤ → List ℤ
insert_desc v [] = v ∷ []
insert_desc v (w ∷ ws) = if leb_ℤ w v then v ∷ w ∷ ws else w ∷ insert_desc v ws

unfoldable pub sort_desc : List ℤ → List ℤ
unfolding insert_desc
sort_desc [] = []
sort_desc (v ∷ vs) = insert_desc v (sort_desc vs)

unfoldable pub forceable_versions : List ℤ
unfolding sort_desc vers_rules
forceable_versions = sort_desc (map (λ r. r.version) vers_rules)

pub data VersError : Type 0 where
  unsupported_version : ℤ → VersError

unfoldable pub rule_for : ℤ → Result VersError VersRule
unfolding vers_rules by_version
rule_for version =
    if ltb_ℤ (pos 0) version
    then ok (record {
      version = version;
      action = apply;
      client_disabled = false;
      delete_config = false;
      may_requery = true;
      verified = true;
    })
    else elim (by_version vers_rules version) [
      | none ↦ raise (unsupported_version version)
      | some rule ↦ ok rule
    ]

unfoldable pub is_disable_value : ℤ → Bool
is_disable_value version = leb_ℤ version (pos 0)

unfoldable pub client_holds_current : ℤ → ℤ → Bool
client_holds_current request_vers server_version =
    ltb_ℤ (pos 0) server_version && eqb_ℤ request_vers server_version

unfoldable pub next_version : ℤ → ℤ
next_version current = if ltb_ℤ (pos 0) current then suc_ℤ current else pos 1
