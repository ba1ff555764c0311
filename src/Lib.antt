-- ===== src/Lib.antt =====
-- A model of the RCS auto-configuration server (package src/acs) and its correctness.
--
-- The server answers HTTP configuration requests (RCC.14) and runs an OMA-DM plane. A request goes
-- through the identity chain of domain/service.py (a provisioning token, a trusted header, GBA, a
-- one-time code by SMS), which reads and writes the store, and is answered with a configuration
-- document, a version, a challenge or a refusal.
--
-- Files, and the code each is about:
--   Models        src/acs/domain/models.py: the entities, one record for each dataclass
--   Store         src/acs/store/memory.py: MemoryStore as a record, one function for each method.
--                 The lock makes a method atomic. Subscribers, Tokens, Otps, Sends prove its laws;
--                 Aliasing is about objects that a caller changes in place (src/acs/api/console.py)
--   Otp           src/acs/auth/otp.py: create_challenge, verify_challenge, discard_challenge. Verify
--                 is about one request alone, Interfered about one among others, Race about any
--                 number of guesses that interleave on one challenge
--   Token         src/acs/auth/token.py: issue_token and verify_token
--   Identity      src/acs/auth/identity.py, and the result types of auth/enrichment.py, auth/gba.py
--   Service       src/acs/domain/service.py: Chain is resolve_identity, Outcome is handle and what
--                 it calls; the proofs are in Chain.Proven, Outcome.Answers and Outcome.Sending
--   Admin         src/acs/api/admin.py: the gate and the operations on subscribers and tokens;
--                 Effects is what they mean for the requests after them
--   Gba           src/acs/auth/gba.py: the check of a Digest Authorization header and its nonce
--   Document      src/acs/protocol/omacp/document.py: the tree of a provisioning document
--   Vers          src/acs/protocol/vers.py: the table of configuration versions
--   Package       src/acs/protocol/omadm/package.py: to_stored, from_stored, apply and fill
--   Omadm         the OMA-DM plane over the memory store: Message is the data of
--                 src/acs/protocol/omadm/syncml.py, Auth is auth.py, MoTree is motree.py, Changes is
--                 _DmChanges of session.py, a list of writes in their order. Session has the
--                 settings and helpers of DmService, Session.Packages the start and the end of a
--                 package, Session.Phases the handlers of the phases, Session.Answer the message
--                 from its session to its answer. Progress, Steps, SignIn and Guard prove what they
--                 do, and Retry what holds when a run stops between two writes, with the lemmas of
--                 Seen, Partial, Starts and Remainders
--   Dynamo        src/acs/store/dynamodb.py: issue_otp and replace_otp. The table is a parameter with
--                 the documented laws of its conditional writes (IsTable). Alone and Replaced
--                 compare with the memory store, Among lets other requests write between the
--                 calls; Memory and Rounds have their lemmas
--   Wbxml         src/acs/protocol/omadm/wbxml.py: Decode is _Decoder, a state that goes from token to
--                 token, and Encode is encode from the tree of the parser. Pieces writes the XML of a
--                 tree directly, Reader reads it. Integers, Texts, Elements, Nested, Trees, Strings
--                 and Heads are the parts of RoundTrip; Limits and Document say what decode
--                 returns, Good and Total that it returns
--   Smpp          src/acs/sms/smpp.py: the PDUs and fields; Session is _Session over the bytes that the
--                 SMSC sends in time, Sender is SmppSmsSender. Wire and Exchange are about them
--   Pii           src/acs/security/pii.py: masks, and the E.164 form of a number; Normal is about it
--   Enrichment    src/acs/auth/enrichment.py: the number of a trusted header; Trusted is about it
--   Prelude       tests into Bool, lists, dictionaries, results and ℤ over the native ℕ
--
-- State is passed explicitly: an operation on the store returns the new store. Exceptions are
-- values (`Result`, or a sum such as `Created`). Times and counters are ℕ, versions ℤ.
--
-- Bounds. verify_challenge, discard_challenge and issue_otp on the table make five rounds, as the
-- code does. Each round of the loops of fill brings the largest count known to fit and the smallest
-- known not to nearer to one another, so the first such smallest is enough fuel; each round of
-- apply takes an entry, so the number of entries is. Each round of the WBXML decoder takes a byte, so
-- the number of bytes is; each round of the loop of an SMPP request reads sixteen at least. Where
-- the fuel would end early the model raises `out_of_rounds`, `out_of_tokens` or `out_of_pdus`, an
-- error that Python has not.
--
-- Parameters, for what is not in the repository: SHA-256, the random draws, the clock, the length
-- of a JSON text, the encoder of a message, HMAC, MD5, base64, UTF-8, UTF-16, the XML parser,
-- `escape`, `ipaddress`, the classes of characters, and of a socket what it delivers, how it ends
-- and whether it takes a write. Arguments for parts that are not modelled: the parser and the
-- encoder of OMA-DM messages, the catalogue and its templates, the SMS sender of a request, the
-- result of the trusted header and, in Service, the result of the Authorization header.
--
-- Not modelled: the SyncML texts, the sockets and TLS of SMPP, the DynamoDB backend but for its
-- one-time passwords, the request parser, the document builder and its XML text, logging and
-- metrics, and the HTTP framework. Other requests act between the operations of a one-time code's
-- verification and discard and between the calls of the DynamoDB table; everything else that a
-- request reads, it reads from the one store that it is given.
pub mod Prelude
pub mod Models
pub mod Store
pub mod Vers
pub mod Token
pub mod Otp
pub mod Identity
pub mod Service
pub mod Package
pub mod Omadm
pub mod Dynamo
pub mod Wbxml
pub mod Smpp
pub mod Enrichment
pub mod Pii
pub mod Gba
pub mod Admin
pub mod Document
