-- ===== src/Server/Proc.antt =====
-- What the proc database reads: the sessions, from server/session_manager.cc, and the cluster and the
-- request for a snapshot, from server/server.cc. Numbers as text, the JSON of a session and the joining
-- of texts are toft's and jsoncpp's.
use pyxis.Prelude.{
  ℕ, zero, suc, Bytes, codes, List, [], ◌∷◌, Option, none, some, if◌then◌else◌, beq,
}
use pyxis.Maps.Keys.{nat_key}
use pyxis.Common.Status
use pyxis.Common.Status.{Status, is_ok}
use pyxis.Node
use pyxis.Node.{Node, add_child}
use pyxis.Db.{Env}
use pyxis.Store.{Store, Run, returns, aborts, serialize_as_string}
use pyxis.Store.Saved.{get_commit_index}
use pyxis.Sessions.{Session}
use pyxis.Sessions.Manager.{Manager, get_session}
use pyxis.Server.{chain}

module _ (env : Env) where
  module _ (number_to_string : ℕ → Bytes) (string_to_number : Bytes → Option ℕ)
      (to_json : Session → Bytes) where
    -- The names of the sessions, as children of the node.
    unfoldable pub list_sessions : List (ℕ × Session) → Node → Node
    unfolding add_child
    list_sessions [] node = node
    list_sessions ((sid, x) ∷ sessions) node =
        list_sessions sessions (add_child node (number_to_string sid))

    -- SessionManager::OnProcRead, with what it leaves in the value.
    unfoldable pub on_proc_read : Manager → List Bytes → Status × Bytes
    unfolding list_sessions
    on_proc_read m [] = (Status.ok, serialize_as_string env (list_sessions m.sessions Node.empty))
    on_proc_read m (name ∷ args) = elim (string_to_number name) [
      | none ↦ (Status.not_found name, [])
      | some sid ↦ elim (get_session m sid) [
        | none ↦ (Status.not_found name, [])
        | some x ↦ elim (env.serialize (record Node.empty { content = to_json x })) [
          | none ↦ (Status.internal (codes "serialize node error"), [])
          | some b ↦ (Status.ok, b)
        ]
      ]
    ]

  -- AddrList[leaderid - 1], which is not defined out of range.
  address_at : ℕ → List Bytes → Run Bytes
  address_at n [] = aborts
  address_at zero (a ∷ rest) = returns a
  address_at (suc n) (a ∷ rest) = address_at n rest

  -- onProcCluster, with raft's leader id, the addresses, and their text.
  unfoldable pub on_proc_cluster : ℕ → List Bytes → Bytes → List Bytes → Run (Status × Bytes)
  unfolding address_at add_child
  on_proc_cluster id addresses joined [] = returns (
    Status.ok,
    serialize_as_string env (add_child (add_child Node.empty (codes "leader")) (codes "addrlist")),
  )
  on_proc_cluster id addresses joined (name ∷ args) =
      let answer : Bytes → Status × Bytes =
        λ content. (Status.ok, serialize_as_string env (record Node.empty { content = content })) in
      if beq name (codes "addrlist")
      then returns (answer joined)
      else if beq name (codes "leader")
      then elim id [
        | zero ↦ returns (answer [])
        | suc n ↦ chain (address_at n addresses) (λ a. returns (answer a))
      ]
      else returns (answer [])

  -- onProcTakeSnapshot, with the index that it passes to onTakeSnapshot.
  unfoldable pub on_proc_take_snapshot : Store env → Run (Status × Option ℕ)
  on_proc_take_snapshot s =
      chain (get_commit_index env s)
        (λ r. returns (if is_ok r.0 then (Status.ok, some r.1) else (r.0, none)))
