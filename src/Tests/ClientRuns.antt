-- ===== src/Tests/ClientRuns.antt =====
-- Runs of the client library.
use pyxis.Prelude.{Bytes, codes, true, false, [], ◌∷◌, some, ◌≡◌, ◌⊎◌, refl, arith, ◌++◌, ℕ}
use pyxis.Common.Status
use pyxis.Common.Status.{Status, is_ok}
use pyxis.Maps.{find, assign, erase, insert_new}
use pyxis.Maps.Keys.{nat_key, bytes_key}
use pyxis.Messages.{Response, no_request, no_response}
use pyxis.Node.{Node}
use pyxis.Node
use pyxis.Watch.{Event}
use pyxis.Rpc
use pyxis.Db.{Op}
use pyxis.Client.Watches
use pyxis.Client.Watches.{Watches}
use pyxis.Client.Cache
use pyxis.Client.Impl.{Impl, is_closed, Action}
use pyxis.Client.Loop
use pyxis.Client.Loop.{
  timer_fires, call_expires, Happening, connects, receives, disconnects, user, handle, can_happen,
  start, new_impl,
}
use pyxis.Client.Quiet.{own, own_all}
use pyxis.Client.Reached.{Reach, started, happened, Reach-one}
use pyxis.Client.Progress.{Reach-moves, Acts}
use pyxis.Client.Reads.{ReadOptions}
use pyxis.Prelude.{◌≤◌}
use pyxis.Tests.Memory.{env, encode}

-- A client that was started, registered with the session 7 and lost its connection while a call of its
-- user was waiting.
abbrev begun : Impl
begun = start (codes "a:1") (new_impl 0 30000 (some 9))

abbrev asked : Impl
asked = handle (codes "b:1") connects begun

abbrev ready : Impl
ready = handle (codes "b:1") (receives (record no_response { xid = some 0; sid = some 7 })) asked

abbrev busy : Impl
busy = handle (codes "b:1") (user 2 (record no_request { stat = some (codes "/x") })) ready

abbrev lost : Impl
lost = handle (codes "b:1") disconnects busy

lost-Reach : Reach lost
unfolding Loop.handle Loop.can_happen Loop.start Rpc.on_connection Rpc.on_rpc_message
    Rpc.call_in_loop find insert_new assign erase
lost-Reach =
    happened (codes "b:1") disconnects busy
      (happened (codes "b:1") (user 2 (record no_request { stat = some (codes "/x") })) ready
        (happened (codes "b:1") (receives (record no_response { xid = some 0; sid = some 7 })) asked
          (happened (codes "b:1") connects begun (started (codes "a:1") 0 30000 (some 9)) refl
            (omega arith))
          refl (omega arith))
        refl (omega arith))
      refl (omega arith)

Reach-one_example :
    (is_closed lost.state ≡ false)
    × ((lost.timers ≡ 1) × (own lost.rpc ≡ 0)
        ⊎ (lost.timers ≡ 0) × (lost.rpc.connected ≡ true) × (own lost.rpc ≡ 1))
    × (own_all lost.old ≡ 0)
Reach-one_example = Reach-one lost lost-Reach

Reach-moves_example :
    ((can_happen timer_fires lost ≡ true)
      × ((addr : Bytes)
          → (handle addr timer_fires lost).actions ≡ lost.actions ++ Action.connects addr ∷ []))
    ⊎ ((x : ℕ) × (m : ℕ) × (find x lost.rpc.pending ≡ some m)
        × (m ≤ 1)
        × ((addr : Bytes) → Acts lost (handle addr (call_expires x) lost)))
Reach-moves_example = Reach-moves lost lost-Reach

-- The Read of a node and the watch of its changes.
abbrev options : ReadOptions
options = record { watch_event = 4; recursive = false; callback = some 3 }

abbrev nothing : Watches
nothing = record { default_done = some 9; watchers = [] }

abbrev changed : Event
changed = record { node = codes "/x"; type = 4 }

abbrev stored : Node
stored = record { content = codes "v"; children = codes "a" ∷ []; flags = 0; version = 1; sid = 7 }

abbrev answer : Response
answer = record no_response { content = some (encode stored) }

abbrev kept : Cache.State env
kept = some (Op.put (codes "/x") (encode stored) ∷ [])
