-- ===== src/Replica/Log.antt =====
-- Servers that ran the same log hold the same replica, whatever else happened to them.
use pyxis.Prelude.{ℕ, Bytes, ◌&&◌, List, [], ◌∷◌, ◌++◌, Option, ◌≡◌, if◌then◌else◌, ◌==◌}
use pyxis.Common.Status.{is_ok}
use pyxis.Db.{Env}
use pyxis.Store.{Run, returns}
use pyxis.Store.Saved.{set_commit_index}
use pyxis.Server.{Server, State, Options, chain, check}
use pyxis.Messages.{Request, sid_of}
use pyxis.Server.Events.{on_state}
use pyxis.Server.Recovery.{on_synced}
use pyxis.Server.Loops.{Choice, command, Looping, enter, turn}
use pyxis.Replica
use pyxis.Replica.{Replica, replica_of, IsKeyed}
use pyxis.Replica.Mirror.{seen}

-- What raft hands to every server: a command to run, and the index of an entry to save.
pub data Entry : Type 0 where
  applied : Request → Entry
  saved : ℕ → Entry

-- The entry that a turn of mainLoop runs in a state: a command, but for a waiter's own ping.
unfoldable pub logged : State → ℕ → Choice → List Entry
logged State.waiter tag (command cmd) =
    if cmd.ping && sid_of cmd == tag then [] else applied cmd ∷ []
logged State.stop tag (command cmd) = []
logged _ tag (command cmd) = applied cmd ∷ []
logged _ tag _ = []

module _ (env : Env) where
  -- One entry on the replica.
  unfoldable pub replay_one : Replica env → Entry → Run (Replica env)
  replay_one r (applied cmd) = seen (λ p. p.0) (Replica.command env r cmd)
  replay_one r (saved index) =
      let (store, st) = set_commit_index env r.store index in
      check (is_ok st) (returns (record r { store = store }))

  -- A log on the replica.
  unfoldable pub replay : Replica env → List Entry → Run (Replica env)
  unfolding replay_one
  replay r [] = returns r
  replay r (x ∷ log) = chain (replay_one r x) (λ q. replay q log)

  module _ (parse : Bytes → Option Request) (add_ms : ℕ → ℕ → ℕ) (o : Options)
      (addresses : List Bytes) (raft_stop raft_leader : ℕ) where
    -- What a server does between two of its states, with the entries that it ran: it enters a loop of
    -- mainLoop or takes a turn of it, and raft calls onState and onSynced.
    pub data Ran : Looping env → List Entry → Looping env → Type 0 where
      stays : (l : Looping env) → Ran l [] l
      enters :
          (times : ℕ → ℕ) (begin : List ℕ → ℕ) (now e : ℕ) (l m n : Looping env) (log : List Entry)
          → enter env add_ms o addresses raft_stop raft_leader times begin now e l ≡ returns m
          → Ran m log n
          → Ran l log n
      turns :
          (now : ℕ) (c : Choice) (l m n : Looping env) (log : List Entry)
          → turn env add_ms o addresses raft_stop raft_leader now c l ≡ returns m
          → Ran m log n
          → Ran l (logged l.server.state l.tag c ++ log) n
      changes :
          (now : ℕ) (l n : Looping env) (log : List Entry)
          → Ran (record l { server = on_state env add_ms now l.server }) log n
          → Ran l log n
      syncs :
          (now index : ℕ) (entry : Bytes) (l n : Looping env) (log : List Entry) (s : Server env)
          (cmd : Request)
          → on_synced env add_ms now parse l.server index entry ≡ returns (s, cmd)
          → Ran (record l { server = s }) log n
          → Ran l (saved index ∷ log) n
