-- ===== src/Server/Registry.antt =====
-- Add and Remove of server/session_manager.cc with their writes to the store.
use pyxis.Prelude.{ℕ, none, true, false, some, ◌≡◌, refl, if◌then◌else◌, ◌==◌}
use pyxis.Common.Status.{is_ok}
use pyxis.Db.{Env}
use pyxis.Maps.{find}
use pyxis.Maps.Keys.{nat_key}
use pyxis.Store.{returns, aborts}
use pyxis.Store.Saved.{add_session, remove_session}
use pyxis.Sessions.{Session, to_protobuf}
use pyxis.Sessions.Manager.{Manager}
use pyxis.Sessions.Invariant.{IsManager, is_known, insert_session-IsManager, remove-IsManager}
use pyxis.Server.{Server}
use pyxis.Server.Commands.{add_to_manager, remove_from_manager}

module _ (env : Env) (add_ms : ℕ → ℕ → ℕ) (now : ℕ) (s : Server env) (v : IsManager s.manager) where
  -- On a well-formed manager, Add of an active session, whether or not its id is known, writes the row
  -- of the session. Where the write succeeds, Add returns, the manager is well formed, the id is known
  -- and the rest of the server is as it was; where it fails, Add aborts.
  pub add_to_manager-IsManager :
      (x : Session)
      → x.active ≡ true
      → (let (store, st) = add_session env s.store (to_protobuf x) in
          (is_ok st ≡ true
            → (m : Manager) × (add_to_manager env add_ms now s x
                ≡ returns (record s { store = store; manager = m }))
              × IsManager m
              × (is_known x.sid m.sessions ≡ true))
          × (is_ok st ≡ false → add_to_manager env add_ms now s x ≡ aborts))
  unfolding add_to_manager
  add_to_manager-IsManager x a =
      let (m, e, w, known) = insert_session-IsManager add_ms now s.manager x v a in
      (λ h. (m, rw (h, e, add_to_manager) refl, w, known), λ h. rw (h, add_to_manager) refl)

  -- On a well-formed manager, Remove of a session that is closed forgets that session and no other and
  -- takes its row away. Where that succeeds, Remove returns, the manager is well formed and the rest of
  -- the server is as it was; where it fails, Remove aborts.
  pub remove_from_manager-IsManager :
      (sid : ℕ) (x : Session)
      → find sid s.manager.sessions ≡ some x
      → x.active ≡ false
      → (let (store, st) = remove_session env s.store sid in
          (is_ok st ≡ true
            → (m : Manager) × (remove_from_manager env add_ms now s sid
                ≡ returns (record s { store = store; manager = m }))
              × IsManager m
              × ((i : ℕ)
                  → find i m.sessions ≡ (if sid == i then none else find i s.manager.sessions)))
          × (is_ok st ≡ false → remove_from_manager env add_ms now s sid ≡ aborts))
  unfolding remove_from_manager
  remove_from_manager-IsManager sid x there closed =
      let (m, e, w, gone) = remove-IsManager s.manager sid x v there closed in
      (
        λ h. (m, rw (e, h, remove_from_manager) refl, w, gone),
        λ h. rw (e, h, remove_from_manager) refl,
      )
