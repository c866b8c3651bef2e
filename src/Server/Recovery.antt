-- ===== src/Server/Recovery.antt =====
-- server.cc: what raft calls: the load of a snapshot, which rebuilds the sessions from the database,
-- and the entries of the log.
use pyxis.Prelude.{ℕ, ◌*◌, Bytes, Option, none, some, if◌then◌else◌, ◌*◌}
use pyxis.Common.Status.{is_ok}
use pyxis.Node.{Node, is_ephemeral}
use pyxis.Db.{Env, SavedSession}
use pyxis.Store.{Run, returns, aborts}
use pyxis.Store.Saved.{walk_sessions, walk_tree, get_commit_index, set_commit_index}
use pyxis.Maps.Keys.{nat_key}
use pyxis.Sessions.{new_session, bind_node}
use pyxis.Sessions.Manager.{get_session}
use pyxis.Server.{Server, chain, check}
use pyxis.Messages.{Request}
use pyxis.Server.Calls.{put_session}
use pyxis.Server.Commands.{add_to_manager}

-- DEFAULT_TIMEOUT.
abbrev pub default_timeout : ℕ
default_timeout = 4 * 60 * 1000

module _ (env : Env) (add_ms : ℕ → ℕ → ℕ) (now : ℕ) where
  -- walkSessionFunc.
  unfoldable pub walk_session_func : SavedSession → Server env → Run (Server env)
  walk_session_func row s = add_to_manager env add_ms now s (new_session now row.sid row.timeout)

  unfoldable pub bind_at : Server env → ℕ → Bytes → Run (Server env)
  bind_at s sid path = elim (get_session s.manager sid) [
    | none ↦ aborts
    | some x ↦ returns (put_session env now s (bind_node x path))
  ]

  -- walkTreeFunc.
  unfoldable pub walk_tree_func : Bytes → Node → Run (Server env) → Run (Server env)
  unfolding bind_at
  walk_tree_func path node run = chain run (λ s.
      if is_ephemeral node.flags
      then elim (get_session s.manager node.sid) [
        | none ↦
            chain (add_to_manager env add_ms now s (new_session now node.sid default_timeout))
              (λ t. bind_at t node.sid path)
        | some x ↦ returns (put_session env now s (bind_node x path))
      ]
      else returns s)

  -- onLoadSnapshot, with the commit index that it returns.
  unfoldable pub on_load_snapshot : Server env → Run (Server env × ℕ)
  unfolding walk_session_func walk_tree_func
  on_load_snapshot s = chain (walk_sessions env s.store walk_session_func s) (λ r.
      check (is_ok r.1) (
        let (run, st) = walk_tree env r.0.store walk_tree_func (returns r.0) in
        chain run (λ t.
          check (is_ok st)
            (chain (get_commit_index env t.store) (λ i. check (is_ok i.0) (returns (t, i.1)))))))

  -- onSynced, with the command that it puts into the command channel; `parse` is ParseFromString.
  unfoldable pub on_synced :
      (Bytes → Option Request) → Server env → ℕ → Bytes → Run (Server env × Request)
  on_synced parse s index entry =
      let (store, st) = set_commit_index env s.store index in
      check (is_ok st) (elim (parse entry) [
        | none ↦ aborts
        | some cmd ↦ returns (record s { store = store }, cmd)
      ])
