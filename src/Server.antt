-- ===== src/Server.antt =====
-- server/server.h: the state of the server, and the messages of proto/rpc.proto. The time does not
-- advance while a handler runs.
pub mod Calls
pub mod Commands
pub mod Registry
pub mod Events
pub mod Nodes
pub mod Recovery
pub mod Watching
pub mod Holds
pub mod Kept
pub mod KeptCommands
pub mod Asked
pub mod Queue
pub mod Loops
pub mod Proc
use pyxis.Prelude.{ℕ, Bytes, Bool, true, false, List, [], ◌∷◌, Option, none, some, if◌then◌else◌}
use pyxis.Maps.{find, assign}
use pyxis.Maps.Keys.{nat_key}
use pyxis.Common.Code.{Error}
use pyxis.Common.Status.{Status, to_rpc_error}
use pyxis.Db.{Env}
use pyxis.Store.{Store, Run, returns, aborts}
use pyxis.Watch.{Event, Watchers}
use pyxis.Messages.{Request, Response, no_response}
use pyxis.Sessions.{Answer}
use pyxis.Sessions.Manager.{Manager}

-- Server::State.
pub data State : Type 0 where
  leader : State
  waiter : State
  follower : State
  stop : State

abbrev pub is_leader : State → Bool
is_leader State.leader = true
is_leader _ = false

-- The options that the handlers read.
pub record Options : Type 0 where
  pub max_session_timeout : ℕ
  pub min_session_timeout : ℕ

module _ (env : Env) where
  -- Server. An rpc::Event is named by a number, `responses` holds the response of each, and
  -- `broadcast` is what raft was asked to replicate, the last first.
  pub record Server : Type 0 where
    pub state : State
    pub requests : List ℕ
    pub store : Store env
    pub manager : Manager
    pub watchers : Watchers
    pub responses : List (ℕ × Response)
    pub broadcast : List Request

  -- e->Rep.
  abbrev pub response_of : Server → ℕ → Response
  response_of s e = elim (find e s.responses) [ none ↦ no_response | some r ↦ r ]

  abbrev pub respond : Server → ℕ → Response → Server
  respond s e r = record s { responses = assign e r s.responses }

  -- st.ToRpcError(rep->mutable_err()), for a status that is not OK.
  abbrev pub fail_with : Server → ℕ → Status → Server
  fail_with s e st = respond s e (record (response_of s e) { err = some (to_rpc_error st) })

  -- What PingBack writes into the response of the event that it lets go.
  abbrev pub deliver : Server → List Answer → Server
  deliver s [] = s
  deliver s (a ∷ answers) = elim a.watch [
    | none ↦ deliver s answers
    | some (path, e) ↦
        deliver
          (respond s a.event (record (response_of s a.event) { path = some path; watch = some e }))
          answers
  ]

abbrev pub chain {ℓ κ} : {A : Type ℓ} {B : Type κ} → Run A → (A → Run B) → Run B
chain (returns a) f = f a
chain aborts f = aborts

-- CHECK.
abbrev pub check {ℓ} : {A : Type ℓ} → Bool → Run A → Run A
check true r = r
check false r = aborts
