-- ===== src/Sessions.antt =====
-- server/session.h and session.cc: the state of one session, without its destructor, which is in
-- Server.
pub mod Manager
pub mod Timers
pub mod Expiry
pub mod Invariant
pub mod Clock
use pyxis.Prelude.{
  ℕ, Bytes, Bool, true, false, not, List, [], ◌∷◌, ◌++◌, Option, none, some, map, if◌then◌else◌,
}
use pyxis.Maps.{find, assign, erase, insert_multi, set_insert, set_erase}
use pyxis.Maps.Keys.{bytes_key}
use pyxis.Db.{SavedSession, SavedWatch}
use pyxis.Watch.{Event, Watcher}

-- Session. Timestamps are microseconds, the timeout is milliseconds, and the ping that is held is
-- named by a number for its rpc::Event.
pub record Session : Type 0 where
  pub sid : ℕ
  pub timeout : ℕ
  pub expire : ℕ
  pub join : ℕ
  pub last_active : ℕ
  pub active : Bool
  pub ping : Option ℕ
  pub pending : List (Bytes × Event)
  pub watches : List (Bytes × Watcher)
  pub nodes : List Bytes

-- The constructor, at a time.
abbrev pub new_session : ℕ → ℕ → ℕ → Session
new_session now sid timeout = record {
  sid = sid;
  timeout = timeout;
  expire = 0;
  join = now;
  last_active = now;
  active = true;
  ping = none;
  pending = [];
  watches = [];
  nodes = [];
}

-- An rpc::Event that the session lets go of, with the watcher's path and the event that PingBack
-- wrote into its response.
pub record Answer : Type 0 where
  pub event : ℕ
  pub watch : Option (Bytes × Event)

-- HoldPing; a ping that was held before is let go of unanswered.
unfoldable pub hold_ping : Session → ℕ → Session × List Answer
hold_ping s event = (
  record s { ping = some event },
  elim s.ping [ none ↦ [] | some old ↦ record { event = old; watch = none } ∷ [] ],
)

-- HasPendingWatcher.
abbrev pub has_pending_watcher : Session → Bool
has_pending_watcher s = elim s.pending [ [] ↦ false | (w ∷ ws) ↦ true ]

-- PendingWatcher.
unfoldable pub pending_watcher : Session → Bytes → Event → Session
pending_watcher s path e = record s { pending = insert_multi path e s.pending }

-- PingBack, at a time.
unfoldable pub ping_back : ℕ → Session → Session × List Answer
ping_back now s = elim s.ping [
  | none ↦ (s, [])
  | some event ↦ elim s.pending [
    | [] ↦
        (record s { last_active = now; ping = none }, record { event = event; watch = none } ∷ [])
    | (w ∷ ws) ↦ (
      record s { last_active = now; ping = none; pending = ws },
      record { event = event; watch = some w } ∷ [],
    )
  ]
]

-- BindWatch.
unfoldable pub bind_watch : Session → Watcher → Session
bind_watch s w = record s { watches = assign w.path w s.watches }

-- RemoveWatch.
unfoldable pub remove_watch : Session → Watcher → Session
remove_watch s w = record s { watches = erase w.path s.watches }

-- HasWatch.
abbrev pub has_watch : Session → Bytes → Bool
has_watch s path = elim (find path s.watches) [ none ↦ false | some w ↦ true ]

-- ResetWatch.
abbrev pub reset_watch : Session → Session
reset_watch s = record s { watches = [] }

-- BindNode.
unfoldable pub bind_node : Session → Bytes → Session
bind_node s path = record s { nodes = set_insert path s.nodes }

-- RemoveNode.
unfoldable pub remove_node : Session → Bytes → Session
remove_node s path = record s { nodes = set_erase path s.nodes }

-- toProtobuf.
unfoldable pub to_protobuf : Session → SavedSession
to_protobuf s = record {
  sid = s.sid;
  watches =
      map
        (λ (e : Bytes × Watcher). record {
          path = e.1.path;
          type = e.1.mask;
          recursive = e.1.recursive;
        })
        s.watches;
  nodes = s.nodes;
  timeout = s.timeout;
}
