-- ===== src/Tests/RegistryRuns.antt =====
-- Add and Remove of a session on a server.
use pyxis.Prelude.{ℕ, [], none, true, false, ◌≡◌, refl, if◌then◌else◌, ◌==◌}
use pyxis.Common.Status.{is_ok}
use pyxis.Maps.{find}
use pyxis.Maps.Keys.{nat_key}
use pyxis.Store.{returns, aborts}
use pyxis.Store.Saved.{add_session, remove_session}
use pyxis.Sessions.{to_protobuf}
use pyxis.Sessions.Manager.{Manager}
use pyxis.Sessions.Invariant.{IsManager, is_known}
use pyxis.Server.{Server, State}
use pyxis.Server.Commands.{add_to_manager, remove_from_manager}
use pyxis.Server.Registry.{add_to_manager-IsManager, remove_from_manager-IsManager}
use pyxis.Tests.Memory.{env}
use pyxis.Tests.StoreRuns.{one_node}
use pyxis.Tests.SessionRuns.{
  add_ms, fresh, fresh-IsManager, seven, shut_seven, closed, closed-IsManager, closed-seven,
}

abbrev with_manager : Manager → Server env
with_manager m = record {
  state = State.follower;
  requests = [];
  store = one_node;
  manager = m;
  watchers = [];
  responses = [];
  broadcast = [];
}

add_to_manager-IsManager_example :
    (let (store, st) = add_session env one_node (to_protobuf seven) in
      (is_ok st ≡ true
        → (m : Manager) × (add_to_manager env add_ms 0 (with_manager fresh) seven
            ≡ returns (record (with_manager fresh) { store = store; manager = m }))
          × IsManager m
          × (is_known 7 m.sessions ≡ true))
      × (is_ok st ≡ false → add_to_manager env add_ms 0 (with_manager fresh) seven ≡ aborts))
add_to_manager-IsManager_example =
    add_to_manager-IsManager env add_ms 0 (with_manager fresh) fresh-IsManager seven refl

remove_from_manager-IsManager_example :
    (let (store, st) = remove_session env one_node 7 in
      (is_ok st ≡ true
        → (m : Manager) × (remove_from_manager env add_ms 9000000 (with_manager closed) 7
            ≡ returns (record (with_manager closed) { store = store; manager = m }))
          × IsManager m
          × ((i : ℕ) → find i m.sessions ≡ (if 7 == i then none else find i closed.sessions)))
      × (is_ok st ≡ false
          → remove_from_manager env add_ms 9000000 (with_manager closed) 7 ≡ aborts))
remove_from_manager-IsManager_example =
    remove_from_manager-IsManager env add_ms 9000000 (with_manager closed) closed-IsManager 7
      shut_seven closed-seven refl
