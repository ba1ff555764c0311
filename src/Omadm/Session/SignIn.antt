-- ===== src/Omadm/Session/SignIn.antt =====
-- src/acs/protocol/omadm/session.py, `_authenticate`, and auth.py: what an accepted credential shows.
use auto_configuration_serve.Prelude.{
  ◌≡◌, refl, ap, ◌∙◌, String, true, false, Option, none, some, List, truthy, str_eq, arith,
  Bool-cases, Option-cases, eq_iff, inl, inr, ◌⊎◌, ◌||◌, not,
}
use auto_configuration_serve.Prelude.Texts.{strip}
use auto_configuration_serve.Models.{DmSession, Subscriber}
use auto_configuration_serve.Store.{MemoryStore, get_subscriber}
use auto_configuration_serve.Omadm.Message.{
  Credentials, SyncMlMessage, decode_basic, auth_basic, auth_md5,
}
use auto_configuration_serve.Omadm.Auth.{
  authenticate, authenticate_basic, authenticate_md5, md5_credential,
}
use auto_configuration_serve.Omadm.MoTree.{MoNode}
use auto_configuration_serve.Omadm.Session.{
  DmSettings, DmOutside, authenticate_message, lookup_password, md5_username,
}

-- What an accepted credential shows: the subscriber whose password it carries.
pub record IsKnown (outside : DmOutside) (store : MemoryStore) (message : SyncMlMessage)
    (session : DmSession) (username : String) : Type 0 where
  pub given_credentials : Credentials
  pub presented : message.header.credentials ≡ some given_credentials
  pub subscriber : Subscriber
  pub stored : get_subscriber store username ≡ some subscriber
  pub has_password : truthy subscriber.dm_password ≡ true
  pub proof_lem :
      (decode_basic outside.b64decode given_credentials ≡ some (username, subscriber.dm_password))
      ⊎ ((given_credentials.type_ ≡ auth_md5)
          × (truthy session.nonce ≡ true)
          × (strip given_credentials.value
              ≡ md5_credential outside.digest username subscriber.dm_password session.nonce))

authenticate_basic_signed :
    (b64decode : String → Option String) (c : Credentials) (lookup : String → Option String)
    (nonce fresh : String)
    → (authenticate_basic b64decode c lookup nonce fresh).authenticated ≡ true
    → (password : String) × (decode_basic b64decode c
        ≡ some ((authenticate_basic b64decode c lookup nonce fresh).username, password))
      × (lookup (authenticate_basic b64decode c lookup nonce fresh).username ≡ some password)
unfolding authenticate_basic
authenticate_basic_signed b64decode c lookup nonce fresh signed =
    elim (Option-cases (decode_basic b64decode c)) [
      | inl unread ↦ absurd (ground arith)
      | inr ((name, password), read) ↦ elim (Option-cases (lookup name)) [
        | inl unknown ↦ absurd (ground arith)
        | inr (expected, found) ↦
            elim (Bool-cases (not (truthy expected) || not (str_eq expected password))) [
              | inl refused ↦ absurd (ground arith)
              | inr matched ↦ (
                password,
                ground (arith, eq_iff expected password),
                ground (arith, eq_iff expected password),
              )
            ]
      ]
    ]

authenticate_md5_signed :
    (digest : String → String) (c : Credentials) (username : String)
    (expected_password : Option String) (nonce fresh : String)
    → (authenticate_md5 digest c username expected_password nonce fresh).authenticated ≡ true
    → (password : String) × (expected_password ≡ some password)
      × ((authenticate_md5 digest c username expected_password nonce fresh).username ≡ username)
      × (c.type_ ≡ auth_md5)
      × (truthy nonce ≡ true)
      × (strip c.value ≡ md5_credential digest username password nonce)
unfolding authenticate_md5
authenticate_md5_signed digest c username none nonce fresh signed =
    elim (Bool-cases (not (truthy c.value) || not (str_eq c.type_ auth_md5))) [
      | inl missing ↦ absurd (ground arith)
      | inr typed ↦ absurd (ground arith)
    ]
authenticate_md5_signed digest c username (some expected) nonce fresh signed =
    elim (Bool-cases (not (truthy c.value) || not (str_eq c.type_ auth_md5))) [
      | inl missing ↦ absurd (ground arith)
      | inr typed ↦ elim (Bool-cases (not (truthy expected) || not (truthy nonce))) [
        | inl empty ↦ absurd (ground arith)
        | inr nonempty ↦
            elim (Bool-cases
              (not (str_eq (md5_credential digest username expected nonce) (strip c.value)))) [
                | inl differs ↦ absurd (ground arith)
                | inr equal ↦ (
                  expected,
                  refl,
                  ground arith,
                  ground (arith, eq_iff c.type_ auth_md5),
                  ground arith,
                  ground (
                    arith,
                    eq_iff (md5_credential digest username expected nonce) (strip c.value),
                  ),
                )
              ]
      ]
    ]

module _ (settings : DmSettings) (outside : DmOutside) (tree : List MoNode) where
  lookup_password_found :
      (store : MemoryStore) (username password : String)
      → lookup_password settings outside tree store username ≡ some password
      → (s : Subscriber) × (get_subscriber store username ≡ some s)
        × (truthy s.dm_password ≡ true)
        × (s.dm_password ≡ password)
  unfolding lookup_password
  lookup_password_found store username password e =
      elim (Option-cases (get_subscriber store username)) [
        | inl unknown ↦ absurd (ground arith)
        | inr (s, found) ↦ (s, found, ground arith, ground arith)
      ]

  basic_password_proof :
      (store : MemoryStore) (message : SyncMlMessage) (session : DmSession) (c : Credentials)
      → message.header.credentials ≡ some c
      → (authenticate_basic outside.b64decode c
          (lookup_password settings outside tree store)
          session.nonce
          outside.fresh_nonce).authenticated
        ≡ true
      → IsKnown outside store message session
          (authenticate_basic outside.b64decode c
            (lookup_password settings outside tree store)
            session.nonce
            outside.fresh_nonce).username
  basic_password_proof store message session c given signed =
      let (password, read, found) =
        authenticate_basic_signed outside.b64decode c (lookup_password settings outside tree store)
          session.nonce outside.fresh_nonce signed in
      let name =
        (authenticate_basic outside.b64decode c (lookup_password settings outside tree store)
          session.nonce outside.fresh_nonce).username in
      let (s, stored, some_password, same) = lookup_password_found store name password found in
      record {
        given_credentials = c;
        presented = given;
        subscriber = s;
        stored = stored;
        has_password = some_password;
        proof_lem = inl (rw same read);
      }

  md5_digest_proof :
      (store : MemoryStore) (message : SyncMlMessage) (session : DmSession) (c : Credentials)
      (username : String)
      → message.header.credentials ≡ some c
      → (authenticate_md5 outside.digest c username
          (lookup_password settings outside tree store username)
          session.nonce
          outside.fresh_nonce).authenticated
        ≡ true
      → IsKnown outside store message session
          (authenticate_md5 outside.digest c username
            (lookup_password settings outside tree store username)
            session.nonce
            outside.fresh_nonce).username
  md5_digest_proof store message session c username given signed =
      let expected = lookup_password settings outside tree store username in
      let (password, found, named, typed, nonempty, equal) =
        authenticate_md5_signed outside.digest c username expected session.nonce outside.fresh_nonce
          signed in
      let (s, stored, some_password, same) = lookup_password_found store username password found in
      let known : IsKnown outside store message session username = record {
        given_credentials = c;
        presented = given;
        subscriber = s;
        stored = stored;
        has_password = some_password;
        proof_lem = inr (typed, nonempty, rw same equal);
      } in
      rw named known

  presented_proof :
      (store : MemoryStore) (message : SyncMlMessage) (session : DmSession)
      (given_credentials : Option Credentials)
      → message.header.credentials ≡ given_credentials
      → (authenticate outside.b64decode given_credentials auth_basic
          (lookup_password settings outside tree store)
          session.nonce
          outside.fresh_nonce).authenticated
        ≡ true
      → IsKnown outside store message session
          (authenticate outside.b64decode given_credentials auth_basic
            (lookup_password settings outside tree store)
            session.nonce
            outside.fresh_nonce).username
  unfolding authenticate
  presented_proof store message session none given signed = absurd (ground arith)
  presented_proof store message session (some c) given signed =
      elim (Bool-cases (not (truthy c.value))) [
        | inl missing ↦ absurd (ground arith)
        | inr present ↦ elim (Bool-cases (str_eq c.type_ auth_basic)) [
          | inl basic ↦
              let known = basic_password_proof store message session c given (ground arith) in
              rw (present, basic) known
          | inr other ↦ absurd (ground arith)
        ]
      ]

  -- Where a scheme is configured, a message is authenticated only as a stored subscriber with a
  -- non-empty password: its credential is basic and holds that name and password, or it is the MD5
  -- credential of that name, that password and the nonce of the session, which is not empty.
  pub authenticate_message_sound :
      (store : MemoryStore) (message : SyncMlMessage) (session : DmSession)
      → str_eq settings.dm_auth_scheme "none" ≡ false
      → (authenticate_message settings outside tree store message session).authenticated ≡ true
      → IsKnown outside store message session
          (authenticate_message settings outside tree store message session).username
  unfolding authenticate_message
  authenticate_message_sound store message session scheme signed =
      let lookup = lookup_password settings outside tree store in
      let name = md5_username settings outside tree message session in
      let result = authenticate_message settings outside tree store message session in
      elim (Option-cases message.header.credentials) [
        | inl missing ↦
            let e : result
                ≡ authenticate outside.b64decode message.header.credentials auth_basic lookup
                    session.nonce outside.fresh_nonce =
              ground arith in
            rw e (
              presented_proof store message session message.header.credentials refl
                (rw (← e) signed))
        | inr (c, given) ↦ elim (Bool-cases (str_eq c.type_ auth_md5)) [
          | inl md5 ↦
              let e : result
                  ≡ authenticate_md5 outside.digest c name (lookup name) session.nonce
                      outside.fresh_nonce =
                ground arith in
              rw e (md5_digest_proof store message session c name given (rw (← e) signed))
          | inr other ↦
              let e : result
                  ≡ authenticate outside.b64decode message.header.credentials auth_basic lookup
                      session.nonce outside.fresh_nonce =
                ground arith in
              rw e (
                presented_proof store message session message.header.credentials refl
                  (rw (← e) signed))
        ]
      ]

  pub authenticate_message_md5 :
      (store : MemoryStore) (message : SyncMlMessage) (session : DmSession) (c : Credentials)
      → str_eq settings.dm_auth_scheme "none" ≡ false
      → message.header.credentials ≡ some c
      → str_eq c.type_ auth_md5 ≡ true
      → truthy message.header.source_name ≡ true
      → authenticate_message settings outside tree store message session
        ≡ authenticate_md5 outside.digest c message.header.source_name
            (lookup_password settings outside tree store message.header.source_name)
            session.nonce
            outside.fresh_nonce
  unfolding authenticate_message
  authenticate_message_md5 store message session c scheme given md5 named =
      let lookup = lookup_password settings outside tree store in
      let checked : authenticate_message settings outside tree store message session
          ≡ authenticate_md5 outside.digest c (md5_username settings outside tree message session)
              (lookup (md5_username settings outside tree message session)) session.nonce
              outside.fresh_nonce =
        ground arith in
      let name : md5_username settings outside tree message session ≡ message.header.source_name =
        rw named refl in
      checked
      ∙ ap (λ u. authenticate_md5 outside.digest c u (lookup u) session.nonce outside.fresh_nonce)
          name
