-- ===== src/Omadm/Changes.antt =====
-- src/acs/protocol/omadm/session.py, `_DmChanges`: what a message changes, and the order in which it
-- is written. A commit is the list of its writes, so that a run can stop between two of them.
use auto_configuration_serve.Prelude.{
  String, Bool, false, Option, none, some, List, [], ◌∷◌, ◌++◌, truthy, if◌then◌else◌,
}
use auto_configuration_serve.Models.{DmSession, DmPendingPackage, Device}
use auto_configuration_serve.Store.{
  MemoryStore, put_device, put_dm_session, put_dm_pending, delete_dm_session, delete_dm_pending,
}

pub record DmChanges : Type 0 where
  pub session : Option DmSession
  pub device : Option Device
  pub pending : Option DmPendingPackage
  pub delete_pending_id : String
  pub delete_session_id : String
  pub progress_in_remainder : Bool

abbrev pub no_changes : DmChanges
no_changes = record {
  session = none;
  device = none;
  pending = none;
  delete_pending_id = "";
  delete_session_id = "";
  progress_in_remainder = false;
}

-- One call of the store.
pub data Write : Type 0 where
  save_device : Device → Write
  save_session : DmSession → Write
  save_pending : DmPendingPackage → Write
  drop_session : String → Write
  drop_pending : String → Write

unfoldable pub write : MemoryStore → Write → MemoryStore
write store (save_device d) = put_device store d
write store (save_session s) = put_dm_session store s
write store (save_pending p) = put_dm_pending store p
write store (drop_session k) = delete_dm_session store k
write store (drop_pending k) = delete_dm_pending store k

abbrev pub when {ℓ} : {A : Type ℓ} → Bool → A → List A
when b a = if b then a ∷ [] else []

abbrev pub for_some : {A : Type 0} → (A → Write) → Option A → List Write
for_some f none = []
for_some f (some a) = f a ∷ []

unfoldable pub save_remainder : DmChanges → List Write
save_remainder changes =
    when (truthy changes.delete_pending_id) (drop_pending changes.delete_pending_id)
    ++ (for_some save_pending changes.pending
        ++ when (truthy changes.delete_session_id) (drop_pending changes.delete_session_id))

unfoldable pub save_progress : DmChanges → List Write
save_progress changes =
    for_some save_session changes.session
    ++ when (truthy changes.delete_session_id) (drop_session changes.delete_session_id)

-- `commit`: the record that holds the progress goes last.
unfoldable pub commit_writes : DmChanges → List Write
unfolding save_remainder save_progress
commit_writes changes =
    for_some save_device changes.device
    ++ (if changes.progress_in_remainder
        then save_progress changes ++ save_remainder changes
        else save_remainder changes ++ save_progress changes)

unfoldable pub perform : MemoryStore → List Write → MemoryStore
unfolding write
perform store [] = store
perform store (w ∷ ws) = perform (write store w) ws

unfoldable pub commit : MemoryStore → DmChanges → MemoryStore
unfolding commit_writes perform
commit store changes = perform store (commit_writes changes)
