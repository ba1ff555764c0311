-- ===== src/Omadm.antt =====
-- src/acs/protocol/omadm: OMA-DM sessions. The children are the messages, the authentication, the
-- management tree, the session, and the codec of binary messages.
pub mod Message
pub mod Auth
pub mod MoTree
pub mod Changes
pub mod Session
