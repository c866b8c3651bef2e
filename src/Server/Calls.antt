-- ===== src/Server/Calls.antt =====
-- server.cc: triggering events, deleting nodes, and the destructor of a session.
use pyxis.Prelude.{ℕ, suc, Bytes, not, ◌||◌, List, [], ◌∷◌, none, some, if◌then◌else◌, ◌==◌, length}
use pyxis.Maps.{find, assign}
use pyxis.Maps.Keys.{nat_key}
use pyxis.Common.Status
use pyxis.Common.Status.{Status, is_ok, is_not_found}
use pyxis.Paths.{split_path}
use pyxis.Node
use pyxis.Node.{Node}
use pyxis.Db.{Env}
use pyxis.Store.{Store, Run, returns, aborts, get}
use pyxis.Store
use pyxis.Watch
use pyxis.Watch.{Event, Watcher, Watchers, triger_fuel}
use pyxis.Sessions.{Session, pending_watcher, ping_back, remove_watch}
use pyxis.Server.{Server, is_leader, deliver, chain, check}

module _ (env : Env) (now : ℕ) where
  abbrev pub put_session : Server env → Session → Server env
  put_session s x = record s {
    manager = record (s.manager) { sessions = assign x.sid x s.manager.sessions };
  }

  -- watchCallback.
  unfoldable pub watch_callback : Server env → Watcher → Event → Server env
  unfolding pending_watcher ping_back remove_watch
  watch_callback s w e = elim (find w.sid s.manager.sessions) [
    | none ↦ s
    | some x ↦
        let (pinged, answers) = ping_back now (pending_watcher x w.path e) in
        if is_leader s.state
        then deliver env (put_session s (remove_watch pinged w)) answers
        else put_session s (remove_watch x w)
  ]

  unfoldable pub notify_all : Server env → List Watcher → Event → Server env
  unfolding watch_callback
  notify_all s [] e = s
  notify_all s (w ∷ ws) e = notify_all (watch_callback s w e) ws e

  -- wm_.Triger, with fuel that is enough where the path has a leading slash.
  unfoldable pub triger : Server env → Event → Run (Server env)
  unfolding notify_all
  triger s e = elim (triger_fuel (suc (length e.node)) e s.watchers) [
    | none ↦ aborts
    | some f ↦ returns (notify_all (record s { watchers = f.left }) f.notified e)
  ]

  -- The two events of a change of a node's existence.
  unfoldable pub triger_both : Server env → Bytes → ℕ → Run (Server env)
  unfolding triger
  triger_both s path type =
      chain (triger s (record { node = path; type = type }))
        (λ s'. triger s' (record { node = (split_path path).parent; type = Watch.children }))

  -- DeleteNode.
  unfoldable pub delete_node : Server env → Bytes → Run (Server env × Status)
  unfolding triger_both
  delete_node s path = chain (Store.delete env s.store path) (λ r.
      let s' = record s { store = r.0 } in
      if not (is_ok r.1)
      then returns (s', r.1)
      else chain (triger_both s' path Watch.delete) (λ t. returns (t, Status.ok)))

  -- The loop of ~Session over the session's nodes.
  unfoldable pub delete_nodes : Server env → ℕ → List Bytes → Run (Server env)
  unfolding delete_node
  delete_nodes s sid [] = returns s
  delete_nodes s sid (path ∷ paths) =
      let (st, node) = get env s.store path Node.empty in
      let skipped = delete_nodes s sid paths in
      if is_not_found st || not (node.sid == sid)
      then skipped
      else chain (delete_node s path)
          (λ r. check (is_ok r.1 || is_not_found r.1) (delete_nodes r.0 sid paths))

  unfoldable pub remove_watches : Watchers → List (Bytes × Watcher) → Watchers
  remove_watches ws [] = ws
  remove_watches ws ((k, w) ∷ bound) = remove_watches (Watch.remove ws w) bound

  -- ~Session.
  unfoldable pub destroy_session : Server env → Session → Run (Server env)
  unfolding delete_nodes remove_watches
  destroy_session s x =
      delete_nodes (record s { watchers = remove_watches s.watchers x.watches }) x.sid x.nodes
