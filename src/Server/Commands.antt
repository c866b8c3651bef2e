-- ===== src/Server/Commands.antt =====
-- server.cc: the commands of the log, which leader and followers run alike.
use pyxis.Prelude.{ℕ, Bytes, false, not, ◌&&◌, [], ◌∷◌, Option, none, some, if◌then◌else◌, codes}
use pyxis.Maps.Keys.{nat_key}
use pyxis.Common.Status
use pyxis.Common.Status.{Status, is_ok, is_not_found}
use pyxis.Node
use pyxis.Node.{Node, is_ephemeral}
use pyxis.Db.{Env}
use pyxis.Store.{Store, Run, returns, aborts, get, serialize_as_string}
use pyxis.Store
use pyxis.Store.Saved.{add_session, remove_session}
use pyxis.Watch
use pyxis.Watch.{Watcher}
use pyxis.Sessions.{
  Session, new_session, has_watch, bind_watch, bind_node, remove_node, to_protobuf,
}
use pyxis.Sessions.Manager
use pyxis.Sessions.Manager.{Manager, get_session}
use pyxis.Server.{Server, is_leader, respond, chain, check}
use pyxis.Messages.{
  Request, Response, CreateRequest, WriteRequest, sid_of, watch_of, is_some, no_response,
}
use pyxis.Server.Calls.{put_session, triger, triger_both, delete_node, destroy_session}
use pyxis.Common.Status.{to_rpc_error}

abbrev pub expired : Status
expired = Status.session_expired (codes "session expired")

abbrev pub or_aborts {ℓ} : {A : Type ℓ} → Option A → Run A
or_aborts none = aborts
or_aborts (some a) = returns a

module _ (env : Env) (add_ms : ℕ → ℕ → ℕ) (now : ℕ) where
  -- SessionManager::Add, with its write to the store.
  unfoldable pub add_to_manager : Server env → Session → Run (Server env)
  add_to_manager s x =
      let raised = Manager.raise_sid x.sid s.manager in
      let (store, st) = add_session env s.store (to_protobuf x) in
      check (is_ok st) (
        chain (or_aborts (Manager.insert_session add_ms now x raised))
          (λ m. returns (record s { store = store; manager = m })))

  -- SessionManager::Remove, with its write to the store.
  unfoldable pub remove_from_manager : Server env → ℕ → Run (Server env)
  remove_from_manager s sid = chain (or_aborts (Manager.remove sid s.manager)) (λ m.
      let (store, st) = remove_session env s.store sid in
      check (is_ok st) (returns (record s { store = store; manager = m })))

  -- onRegister.
  unfoldable pub on_register : Server env → Request → Run (Server env × Status × ℕ)
  unfolding add_to_manager
  on_register s req =
      let timeout : ℕ = elim req.register [ none ↦ 0 | some t ↦ t ] in
      chain (add_to_manager s (new_session now (sid_of req) timeout))
        (λ s'. returns (s', Status.ok, sid_of req))

  -- onUnRegister; the last pointer to the session goes when it returns.
  unfoldable pub on_unregister : Server env → Request → Run (Server env × Status)
  unfolding remove_from_manager
  on_unregister s req = elim (get_session s.manager (sid_of req)) [
    | none ↦ returns (s, expired)
    | some x ↦
        let closed = record x { active = false } in
        chain (remove_from_manager (put_session env now s closed) (sid_of req))
          (λ s'. chain (destroy_session env now s' closed) (λ t. returns (t, Status.ok)))
  ]

  unfoldable pub bind_created : Server env → ℕ → Bytes → Run (Server env)
  bind_created s sid path = elim (get_session s.manager sid) [
    | none ↦ aborts
    | some x ↦ returns (put_session env now s (bind_node x path))
  ]

  -- onCreate.
  unfoldable pub on_create : Server env → ℕ → CreateRequest → Run (Server env × Status)
  unfolding bind_created
  on_create s sid req =
      if not (is_some (get_session s.manager sid)) && is_ephemeral req.flags
      then returns (s, expired)
      else let (store, st) = Store.create env s.store req.path req.content req.flags sid in
        let s' = record s { store = store } in
        if not (is_ok st)
        then returns (s', st)
        else chain (if is_ephemeral req.flags then bind_created s' sid req.path else returns s')
            (λ t. chain (triger_both env now t req.path Watch.create) (λ u. returns (u, Status.ok)))

  -- onDelete.
  unfoldable pub on_delete : Server env → ℕ → Bytes → Run (Server env × Status)
  on_delete s sid path =
      let (st, node) = get env s.store path Node.empty in
      if not (is_ok st)
      then returns (s, st)
      else chain (delete_node env now s path) (λ r.
        if not (is_ok r.1) then returns r else elim (get_session r.0.manager sid) [
          | none ↦ returns (r.0, expired)
          | some x ↦ returns (put_session env now r.0 (remove_node x path), Status.ok)
        ])

  -- onWrite.
  unfoldable pub on_write : Server env → WriteRequest → Run (Server env × Status)
  on_write s req =
      let (store, st) = Store.write env s.store req.path req.content in
      let s' = record s { store = store } in
      if not (is_ok st)
      then returns (s', st)
      else chain (triger env now s' (record { node = req.path; type = Watch.modify }))
          (λ t. returns (t, st))

  -- onWatch.
  unfoldable pub on_watch : Server env → Request → Server env × Status
  on_watch s req = elim (get_session s.manager (sid_of req)) [
    | none ↦ (s, expired)
    | some x ↦
        let wreq = watch_of req in
        let w : Watcher = record {
          path = wreq.path;
          sid = x.sid;
          mask = wreq.watch;
          recursive = wreq.recursive;
        } in
        if has_watch x wreq.path then (s, Status.ok) else (
          put_session env now (record s { watchers = Watch.add s.watchers wreq.path w })
              (bind_watch x w),
          Status.ok,
        )
  ]

  -- onRead, with the data that it leaves.
  unfoldable pub on_read : Server env → Request → Bytes → Run (Server env × Status × Bytes)
  unfolding on_watch
  on_read s req path = check (is_some req.watch) (
      let (st, content) = Store.read env s.store path in
      if not (is_ok st)
      then returns (s, st, content)
      else let (s', st1) = on_watch s req in returns (s', st1, content))

  -- onStat, with the data that it leaves.
  unfoldable pub on_stat : Server env → Request → Bytes → Run (Server env × Status × Bytes)
  unfolding on_watch
  on_stat s req path = check (is_some req.watch) (
      let (st, node) = get env s.store path Node.empty in
      let (s', st1) = on_watch s req in
      if is_ok st
      then returns (s', st1, serialize_as_string env node)
      else if is_not_found st
      then returns (s', (if is_ok st1 then st else st1), [])
      else returns (s, st, []))

  -- A status and a response: the dispatch of onCommand.
  unfoldable pub run_command : Server env → Request → Run (Server env × Status × Response)
  run_command s req =
      let plain : Run (Server env × Status) → Run (Server env × Status × Response) =
        λ r. chain r (λ x. returns (x.0, x.1, no_response)) in
      let filled : Run (Server env × Status × Bytes) → Run (Server env × Status × Response) =
        λ r. chain r (λ x. returns (x.0, x.1, record no_response { content = some x.2 })) in
      if is_some req.register
      then chain (on_register s req)
          (λ x. returns (x.0, x.1, record no_response { sid = some x.2 }))
      else if req.unregister
      then plain (on_unregister s req)
      else elim req.create [
        | some c ↦ plain (on_create s (sid_of req) c)
        | none ↦ elim req.delete [
          | some path ↦ plain (on_delete s (sid_of req) path)
          | none ↦ elim req.read [
            | some path ↦ filled (on_read s req path)
            | none ↦ elim req.write [
              | some w ↦ plain (on_write s w)
              | none ↦ elim req.stat [
                | some path ↦ filled (on_stat s req path)
                | none ↦
                    if is_some req.watch
                    then plain (returns (on_watch s req))
                    else returns (s, Status.ok, no_response)
              ]
            ]
          ]
        ]
      ]

  unfoldable pub answer : Option ℕ → Server env × Status × Response → Server env
  answer none (s, st, rep) = s
  answer (some e) (s, st, rep) =
      respond env s e (if is_ok st then rep else record rep { err = some (to_rpc_error st) })

  -- onCommand: a leader answers the oldest of its pending requests.
  unfoldable pub on_command : Server env → Request → Run (Server env)
  unfolding run_command answer
  on_command s req =
      if is_leader s.state
      then elim s.requests [
        | [] ↦ aborts
        | (e ∷ es) ↦
            chain (run_command (record s { requests = es }) req) (λ r. returns (answer (some e) r))
      ]
      else chain (run_command s req) (λ r. returns (answer none r))
