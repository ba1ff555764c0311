-- ===== src/Store/Tokens.antt =====
-- src/acs/store/memory.py: what revoking a subscriber's tokens does to each stored token.
use auto_configuration_serve.Prelude.{
  String, ◌≡◌, refl, Bool, ◌||◌, Option, none, some, List, [], ◌∷◌, map, length, keep, arith,
  str_eq,
}
use auto_configuration_serve.Prelude.Dict
use auto_configuration_serve.Prelude.Dict.{get-map_values, values-map_values}
use auto_configuration_serve.Models.{TokenRecord}
use auto_configuration_serve.Store.{
  MemoryStore, get_token, revoke_tokens_for_imsi, revoke_if_live, live_token_of,
}

-- A token, revoked besides if the test says so.
abbrev pub revoked_if : (TokenRecord → Bool) → Option TokenRecord → Option TokenRecord
revoked_if test none = none
revoked_if test (some t) = some (record t { revoked = t.revoked || test t })

revoke_if_live_lem :
    (imsi : String) (o : Option TokenRecord)
    → elim o [ none ↦ none | some t ↦ some (revoke_if_live imsi t) ]
      ≡ revoked_if (λ t. str_eq t.imsi imsi) o
unfolding revoke_if_live
revoke_if_live_lem imsi none = refl
revoke_if_live_lem imsi (some t) = ground arith

-- After the tokens of an IMSI are revoked, each digest finds the token that it found before, with
-- `revoked` set as well if the token belongs to that IMSI. No token appears, goes or loses a mark.
pub get_token-revoke_tokens_for_imsi :
    (store : MemoryStore) (imsi digest : String)
    → get_token (revoke_tokens_for_imsi store imsi).0 digest
      ≡ revoked_if (λ t. str_eq t.imsi imsi) (get_token store digest)
unfolding get_token revoke_tokens_for_imsi
get_token-revoke_tokens_for_imsi store imsi digest =
    rw (get-map_values (revoke_if_live imsi) store.tokens digest)
      (revoke_if_live_lem imsi (Dict.get store.tokens digest))

none_live :
    (imsi : String) (ts : List TokenRecord)
    → length (keep (live_token_of imsi) (map (revoke_if_live imsi) ts)) ≡ 0
unfolding revoke_if_live
none_live imsi [] = refl
none_live imsi (t ∷ ts) = ground (arith, none_live imsi ts)

-- The revocation is complete: a second one right after it finds no token left to revoke.
pub revoke_tokens_for_imsi_twice :
    (store : MemoryStore) (imsi : String)
    → (revoke_tokens_for_imsi (revoke_tokens_for_imsi store imsi).0 imsi).1 ≡ 0
unfolding revoke_tokens_for_imsi
revoke_tokens_for_imsi_twice store imsi =
    rw (values-map_values (revoke_if_live imsi) store.tokens) (none_live imsi _)
