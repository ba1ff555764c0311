-- ===== src/Enrichment.antt =====
-- src/acs/auth/enrichment.py: the identity that a trusted gateway puts in a header. A text is the list of
-- its code points; the `ipaddress` module and `str.lower` are parameters.
pub mod Trusted
pub mod Runs
use auto_configuration_serve.Prelude.{
  ℕ, zero, suc, ◌+◌, Bool, true, false, Option, none, some, List, [], ◌∷◌, ◌++◌, ltb, leb, ◌==◌,
  length, drop, ◌&&◌, ◌||◌, not, if◌then◌else◌,
}
use auto_configuration_serve.Pii.{Classes, lstrip, rstrip, starts_with, normalise_msisdn}

pub record Addresses : Type 1 where
  pub Network : Type 0
  pub Address : Type 0
  pub ip_network : List ℕ → Option Network
  pub ip_address : List ℕ → Option Address
  pub is_in : Address → Network → Bool

pub data Reason : Type 0 where
  disabled absent untrusted_peer malformed_value trusted_peer : Reason

pub record Enriched : Type 0 where
  pub msisdn : Option (List ℕ)
  pub trusted : Bool
  pub reason : Reason

-- `s.split(x)` for a character.
unfoldable pub split : ℕ → List ℕ → List (List ℕ)
split x [] = [] ∷ []
split x (c ∷ cs) = elim (split x cs) [
  | [] ↦ [] ∷ []
  | part ∷ parts ↦ if c == x then [] ∷ part ∷ parts else (c ∷ part) ∷ parts
]

abbrev pub is_blank : List ℕ → Bool
is_blank [] = true
is_blank (c ∷ cs) = false

-- `strip(x)` for a character.
unfoldable pub lstrip_code : ℕ → List ℕ → List ℕ
lstrip_code x [] = []
lstrip_code x (c ∷ cs) = let rest = lstrip_code x cs in if c == x then rest else c ∷ cs

unfoldable pub rstrip_code : ℕ → List ℕ → List ℕ
rstrip_code x [] = []
rstrip_code x (c ∷ cs) =
    let rest = rstrip_code x cs in if c == x && is_blank rest then [] else c ∷ rest

unfoldable pub first_part : ℕ → List ℕ → List ℕ
first_part x [] = []
first_part x (c ∷ cs) = let rest = first_part x cs in if c == x then [] else c ∷ rest

unfoldable pub same_text : List ℕ → List ℕ → Bool
same_text [] [] = true
same_text [] (d ∷ ds) = false
same_text (c ∷ cs) [] = false
same_text (c ∷ cs) (d ∷ ds) = c == d && same_text cs ds

module _ (classes : Classes) (addresses : Addresses) (lower : List ℕ → List ℕ) where
  abbrev pub strip : List ℕ → List ℕ
  strip text = lstrip classes (rstrip classes text)

  -- `parts[-1]` of the parts that are not blank.
  unfoldable pub last_part : List (List ℕ) → Option (List ℕ)
  last_part [] = none
  last_part (p ∷ ps) = elim (last_part ps) [
    | none ↦ if is_blank (strip p) then none else some (strip p)
    | some q ↦ some q
  ]

  unfoldable pub client_address : Option (List ℕ) → Option (List ℕ) → Option (List ℕ)
  unfolding last_part split
  client_address peer none = peer
  client_address peer (some forwarded_for) = elim (last_part (split 0x2c forwarded_for)) [
    | none ↦ peer
    | some p ↦ some p
  ]

  -- `any(ip in network for network in _networks(cidrs))`.
  unfoldable pub in_networks : addresses.Address → List (List ℕ) → Bool
  in_networks ip [] = false
  in_networks ip (cidr ∷ cidrs) =
      elim (addresses.ip_network cidr) [ none ↦ false | some network ↦ addresses.is_in ip network ]
      || in_networks ip cidrs

  unfoldable pub is_trusted_peer : Option (List ℕ) → List (List ℕ) → Bool
  unfolding in_networks
  is_trusted_peer none cidrs = false
  is_trusted_peer (some []) cidrs = false
  is_trusted_peer (some (c ∷ cs)) cidrs = elim (addresses.ip_address (c ∷ cs)) [
    | none ↦ false
    | some ip ↦ in_networks ip cidrs
  ]

  -- `lowered.get(header_name.lower())`: the last of the headers with the name.
  unfoldable pub header_value : List (List ℕ × List ℕ) → List ℕ → Option (List ℕ)
  unfolding same_text
  header_value [] name = none
  header_value ((k, v) ∷ headers) name = elim (header_value headers name) [
    | none ↦ if same_text (lower k) (lower name) then some v else none
    | some later ↦ some later
  ]

  unfoldable pub without_prefix : List ℕ → List ℕ → List ℕ
  unfolding starts_with
  without_prefix prefix text = if starts_with prefix text then drop (length prefix) text else text

  -- The number of a header's value: `tel:` and `sip:`, quotes, and what follows `@` or `;`.
  unfoldable pub number_of : List ℕ → List ℕ
  unfolding lstrip_code rstrip_code without_prefix first_part
  number_of raw =
      let value = lstrip_code 0x22 (rstrip_code 0x22 (strip raw)) in
      let bare =
        without_prefix (0x73 ∷ 0x69 ∷ 0x70 ∷ 0x3a ∷ [])
          (without_prefix (0x74 ∷ 0x65 ∷ 0x6c ∷ 0x3a ∷ []) value) in
      first_part 0x3b (first_part 0x40 bare)

  -- With the address of the client.
  unfoldable pub resolve_at :
      List (List ℕ × List ℕ)
      → (address : Option (List ℕ)) → (header_name : List ℕ) → (trusted_cidrs : List (List ℕ))
      → (country trunk : List ℕ) → Enriched
  unfolding header_value is_trusted_peer number_of normalise_msisdn
  resolve_at headers address header_name [] country trunk = record {
    msisdn = none;
    trusted = false;
    reason = disabled;
  }
  resolve_at headers address header_name (cidr ∷ cidrs) country trunk =
      elim (header_value headers header_name) [
        | none ↦ record { msisdn = none; trusted = false; reason = absent }
        | some raw ↦
            if is_blank raw
            then record { msisdn = none; trusted = false; reason = absent }
            else if not (is_trusted_peer address (cidr ∷ cidrs))
            then record { msisdn = none; trusted = false; reason = untrusted_peer }
            else elim (normalise_msisdn classes (some (number_of raw)) country trunk) [
              | none ↦ record { msisdn = none; trusted = true; reason = malformed_value }
              | some msisdn ↦ record { msisdn = some msisdn; trusted = true; reason = trusted_peer }
            ]
      ]

  unfoldable pub resolve_enriched_identity :
      List (List ℕ × List ℕ)
      → (peer forwarded_for : Option (List ℕ)) → (header_name : List ℕ)
      → (trusted_cidrs : List (List ℕ)) → (country trunk : List ℕ) → Enriched
  unfolding client_address resolve_at
  resolve_enriched_identity headers peer forwarded_for header_name trusted_cidrs country trunk =
      resolve_at headers (client_address peer forwarded_for) header_name trusted_cidrs country trunk
