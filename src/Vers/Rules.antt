-- ===== src/Vers/Rules.antt =====
-- src/acs/protocol/vers.py: the versions that have a rule, and the bump of a version.
use auto_configuration_serve.Prelude.{zero, suc, ◌≡◌, refl, true, false, Result, ok, raise, arith}
use auto_configuration_serve.Prelude.Int.{ℤ, pos, negsuc, ◌≤ℤ◌, ltb_ℤ}
use auto_configuration_serve.Vers.{
  VersRule, rule_for, is_disable_value, client_holds_current, next_version, VersError,
  unsupported_version,
}

-- What an answer is about; `negsuc n` is -(n + 1).
abbrev pub Rules : ℤ → Result VersError VersRule → Type 0
Rules version (ok rule) =
    (negsuc 3 ≤ℤ version)
    × (rule.version ≡ version)
    × (rule.client_disabled ≡ is_disable_value version)
Rules version (raise e) = (e ≡ unsupported_version version) × (version ≤ℤ negsuc 4)

-- `rule_for` answers only for the versions from -4 up, and raises only below; what it answers is
-- about the version asked for, and disables the client exactly if `is_disable_value` says so.
pub rule_for-Rules : (version : ℤ) → Rules version (rule_for version)
unfolding rule_for is_disable_value
rule_for-Rules (pos zero) = (omega arith, refl, refl)
rule_for-Rules (pos (suc n)) = ground arith
rule_for-Rules (negsuc zero) = (omega arith, refl, refl)
rule_for-Rules (negsuc (suc zero)) = (omega arith, refl, refl)
rule_for-Rules (negsuc (suc (suc zero))) = (omega arith, refl, refl)
rule_for-Rules (negsuc (suc (suc (suc zero)))) = (omega arith, refl, refl)
rule_for-Rules (negsuc (suc (suc (suc (suc n))))) = ground arith

-- A bump makes a version that is positive and higher, so a client that holds the old version, or a
-- lower one, is not taken for current.
pub next_version_grows :
    (held current : ℤ)
    → held ≤ℤ current
    → (pos 1 ≤ℤ next_version current)
      × (ltb_ℤ current (next_version current) ≡ true)
      × (client_holds_current held (next_version current) ≡ false)
unfolding next_version client_holds_current
next_version_grows held current h = ground arith
