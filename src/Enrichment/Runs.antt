-- ===== src/Enrichment/Runs.antt =====
-- src/acs/auth/enrichment.py at concrete inputs: a forged entry of X-Forwarded-For before the gateway's.
use auto_configuration_serve.Prelude.{
  ℕ, ◌≡◌, refl, Bool, none, some, List, [], ◌∷◌, ◌++◌, leb, ◌==◌, ◌&&◌,
}
use auto_configuration_serve.Pii.{Classes, lstrip, rstrip}
use auto_configuration_serve.Enrichment.{
  Addresses, same_text, split, last_part, resolve_enriched_identity,
}
use auto_configuration_serve.Enrichment.Trusted.{resolve_enriched_identity_forged}

abbrev ascii_digit : ℕ → Bool
ascii_digit c = leb 0x30 c && leb c 0x39

abbrev ascii : Classes
ascii = record { is_space = λ c. c == 0x20; is_digit = ascii_digit; is_decimal = ascii_digit }

-- A network is one address.
abbrev exact : Addresses
exact = record {
  Network = List ℕ;
  Address = List ℕ;
  ip_network = λ text. some text;
  ip_address = λ text. some text;
  is_in = λ ip network. same_text ip network;
}

abbrev as_is : List ℕ → List ℕ
as_is text = text

abbrev gateway : List ℕ
gateway = 49 ∷ 48 ∷ 46 ∷ 49 ∷ []

abbrev spoofed : List ℕ
spoofed = 57 ∷ 46 ∷ 57 ∷ []

abbrev identity_header : List ℕ
identity_header = 120 ∷ []

abbrev headers : List (List ℕ × List ℕ)
headers = (identity_header, 43 ∷ 56 ∷ 50 ∷ 49 ∷ 48 ∷ 49 ∷ 50 ∷ 51 ∷ []) ∷ []

gateway_last : last_part ascii exact as_is (split 0x2c (32 ∷ gateway)) ≡ some gateway
unfolding last_part split lstrip rstrip
gateway_last = refl

resolve_enriched_identity_forged_example :
    resolve_enriched_identity ascii exact as_is headers none
      (some (spoofed ++ 0x2c ∷ 32 ∷ gateway))
      identity_header
      (gateway ∷ [])
      []
      []
    ≡ resolve_enriched_identity ascii exact as_is headers none
        (some (32 ∷ gateway))
        identity_header
        (gateway ∷ [])
        []
        []
resolve_enriched_identity_forged_example =
    resolve_enriched_identity_forged ascii exact as_is headers none spoofed (32 ∷ gateway) gateway
      identity_header (gateway ∷ []) [] [] gateway_last
