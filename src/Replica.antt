-- ===== src/Replica.antt =====
-- The part of a server that the log alone decides: the store, and which nodes each session owns. The
-- commands of server.cc without watches, times, pings, answers and the raft state.
pub mod Calm
pub mod Mirror
pub mod Sessions
pub mod Commands
pub mod Keyed
pub mod Dispatch
pub mod Quiet
pub mod Events
pub mod Timer
pub mod Log
pub mod Replay
pub mod Agree
pub mod Held
pub mod Owns
pub mod Linked
pub mod Sweep
pub mod Clean
pub mod Start
pub mod Reload
pub mod Loaded
use pyxis.Prelude.{
  ℕ, Bytes, Bool, not, ◌&&◌, ◌||◌, List, [], ◌∷◌, Option, none, some, ◌==◌, if◌then◌else◌, ◌≡◌,
}
use pyxis.Maps.{find, set_insert, set_erase}
use pyxis.Maps.Keys.{nat_key, bytes_key}
use pyxis.Common.Status
use pyxis.Common.Status.{Status, is_ok, is_not_found}
use pyxis.Node
use pyxis.Node.{is_ephemeral}
use pyxis.Db.{Env, SavedSession}
use pyxis.Store.{Store, Run, returns, aborts, get}
use pyxis.Store
use pyxis.Store.Saved.{add_session, remove_session}
use pyxis.Sessions.{Session}
use pyxis.Server.{Server, chain, check}
use pyxis.Messages.{Request, CreateRequest, WriteRequest, sid_of, is_some}
use pyxis.Server.Commands.{expired}

-- The id and the nodes of a session.
abbrev pub Owner : Type 0
Owner = ℕ × List Bytes

abbrev pub owner : Option Session → Option Owner
owner none = none
owner (some x) = some (x.sid, x.nodes)

-- A function changed at one argument.
unfoldable pub set_at : ℕ → Option Owner → (ℕ → Option Owner) → ℕ → Option Owner
set_at k o f j = if k == j then o else f j

-- A new session owns nothing; one that is there keeps what it owns.
unfoldable pub add_owner : ℕ → (ℕ → Option Owner) → ℕ → Option Owner
unfolding set_at
add_owner sid f = elim (f sid) [ some _ ↦ f | none ↦ set_at sid (some (sid, [])) f ]

-- Every session stands at its own id.
abbrev pub IsKeyedMap : (ℕ → Option Owner) → Type 0
IsKeyedMap f = (k i : ℕ) (nodes : List Bytes) → f k ≡ some (i, nodes) → i ≡ k

module _ (env : Env) where
  pub record Replica : Type 0 where
    pub store : Store env
    pub owned : ℕ → Option Owner

  -- The replica that a server holds.
  abbrev pub replica_of : Server env → Replica
  replica_of s = record { store = s.store; owned = λ k. owner (find k s.manager.sessions) }

  abbrev pub IsKeyed : Replica → Type 0
  IsKeyed r = IsKeyedMap r.owned

  unfoldable pub register : Replica → ℕ → ℕ → Run (Replica × Status)
  unfolding add_owner
  register r sid timeout =
      let row : SavedSession = record { sid = sid; watches = []; nodes = []; timeout = timeout } in
      let (store, st) = add_session env r.store row in
      check (is_ok st)
        (returns (record { store = store; owned = add_owner sid r.owned }, Status.ok))

  unfoldable pub remove_node : Replica → Bytes → Run (Replica × Status)
  remove_node r path =
      chain (Store.delete env r.store path)
        (λ q. returns (record r { store = q.0 }, (if not (is_ok q.1) then q.1 else Status.ok)))

  unfoldable pub remove_nodes : Replica → ℕ → List Bytes → Run Replica
  unfolding remove_node
  remove_nodes r sid [] = returns r
  remove_nodes r sid (path ∷ paths) =
      let (st, node) = get env r.store path Node.empty in
      let skipped = remove_nodes r sid paths in
      if is_not_found st || not (node.sid == sid)
      then skipped
      else chain (remove_node r path)
          (λ q. check (is_ok q.1 || is_not_found q.1) (remove_nodes q.0 sid paths))

  unfoldable pub unregister : Replica → ℕ → Run (Replica × Status)
  unfolding remove_nodes set_at
  unregister r sid = elim (r.owned sid) [
    | none ↦ returns (r, expired)
    | some (i, nodes) ↦
        let (store, st) = remove_session env r.store sid in
        check (is_ok st) (
          chain (remove_nodes (record { store = store; owned = set_at sid none r.owned }) i nodes)
            (λ q. returns (q, Status.ok)))
  ]

  unfoldable pub bind : Replica → ℕ → Bytes → Run Replica
  unfolding set_at
  bind r sid path = elim (r.owned sid) [
    | none ↦ aborts
    | some (i, nodes) ↦
        returns (record r { owned = set_at i (some (i, set_insert path nodes)) r.owned })
  ]

  unfoldable pub create : Replica → ℕ → CreateRequest → Run (Replica × Status)
  unfolding bind
  create r sid req =
      if not (is_some (r.owned sid)) && is_ephemeral req.flags
      then returns (r, expired)
      else let (store, st) = Store.create env r.store req.path req.content req.flags sid in
        let r' = record r { store = store } in
        if not (is_ok st)
        then returns (r', st)
        else chain (if is_ephemeral req.flags then bind r' sid req.path else returns r')
            (λ q. returns (q, Status.ok))

  unfoldable pub delete : Replica → ℕ → Bytes → Run (Replica × Status)
  unfolding remove_node set_at
  delete r sid path =
      let (st, node) = get env r.store path Node.empty in
      if not (is_ok st)
      then returns (r, st)
      else chain (remove_node r path) (λ q.
        if not (is_ok q.1) then returns q else elim (q.0.owned sid) [
          | none ↦ returns (q.0, expired)
          | some (i, nodes) ↦ returns (
            record (q.0) { owned = set_at i (some (i, set_erase path nodes)) q.0.owned },
            Status.ok,
          )
        ])

  unfoldable pub write : Replica → WriteRequest → Run (Replica × Status)
  write r req =
      let (store, st) = Store.write env r.store req.path req.content in
      returns (record r { store = store }, st)

  -- What onWatch answers.
  abbrev pub watch_status : Replica → ℕ → Status
  watch_status r sid = elim (r.owned sid) [ none ↦ expired | some _ ↦ Status.ok ]

  unfoldable pub read : Replica → Request → Bytes → Run (Replica × Status)
  read r req path = check (is_some req.watch) (
      let (st, content) = Store.read env r.store path in
      returns (r, (if not (is_ok st) then st else watch_status r (sid_of req))))

  unfoldable pub stat : Replica → Request → Bytes → Run (Replica × Status)
  stat r req path = check (is_some req.watch) (
      let (st, node) = get env r.store path Node.empty in
      let st1 = watch_status r (sid_of req) in
      returns (
        r,
        if is_ok st then st1 else if is_not_found st then (if is_ok st1 then st else st1) else st,
      ))

  -- The dispatch of onCommand.
  unfoldable pub command : Replica → Request → Run (Replica × Status)
  unfolding register unregister create delete read write stat
  command r req =
      if is_some req.register
      then register r (sid_of req) (elim req.register [ none ↦ 0 | some t ↦ t ])
      else if req.unregister
      then unregister r (sid_of req)
      else elim req.create [
        | some c ↦ create r (sid_of req) c
        | none ↦ elim req.delete [
          | some path ↦ delete r (sid_of req) path
          | none ↦ elim req.read [
            | some path ↦ read r req path
            | none ↦ elim req.write [
              | some w ↦ write r w
              | none ↦ elim req.stat [
                | some path ↦ stat r req path
                | none ↦
                    if is_some req.watch
                    then returns (r, watch_status r (sid_of req))
                    else returns (r, Status.ok)
              ]
            ]
          ]
        ]
      ]
