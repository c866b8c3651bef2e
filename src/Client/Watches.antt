-- ===== src/Client/Watches.antt =====
-- client/watch_manager.cc and client/watcher.h.
use pyxis.Prelude.{ℕ, Bytes, Bool, List, [], ◌∷◌, Option, none, some}
use pyxis.Maps.{find, insert_new, erase}
use pyxis.Maps.Keys.{bytes_key}
use pyxis.Watch.{Event}

-- WatchCallback, a boost::function that is named by a number; none is the empty one.
abbrev pub Callback : Type 0
Callback = Option ℕ

-- Watcher, with its callback Done.
pub record Watcher : Type 0 where
  pub path : Bytes
  pub mask : ℕ
  pub recursive : Bool
  pub done : Callback

-- WatchManager, without its threads: the callback of the default watcher and watchers_.
pub record Watches : Type 0 where
  pub default_done : Callback
  pub watchers : List (Bytes × Watcher)

-- A callback that the thread pool runs with an event.
pub record Notice : Type 0 where
  pub done : Callback
  pub event : Event

-- Add: a watcher that is at the path stays.
unfoldable pub add : Watches → Bytes → Watcher → Watches
add m path w = record m { watchers = insert_new path w m.watchers }

-- Remove.
unfoldable pub remove : Watches → Bytes → Watches
remove m path = record m { watchers = erase path m.watchers }

-- Clear.
unfoldable pub clear : Watches → Watches
clear m = record m { watchers = [] }

-- Triger.
unfoldable pub triger : Watches → Bytes → Event → Watches × Notice
triger m path e = elim (find path m.watchers) [
  | none ↦ (m, record { done = m.default_done; event = e })
  | some w ↦ (record m { watchers = erase path m.watchers }, record { done = w.done; event = e })
]

-- trigerInternal: the callback that takes the event; none where it is empty, and the call throws.
unfoldable pub call_done : Notice → Option (ℕ × Event)
call_done n = elim n.done [ none ↦ none | some c ↦ some (c, n.event) ]

-- The watchers that Walk calls back with, in order.
unfoldable pub walk : Watches → List Watcher
walk m = walk_all m.watchers
  where
    walk_all : List (Bytes × Watcher) → List Watcher
    walk_all [] = []
    walk_all ((k, w) ∷ ws) = w ∷ walk_all ws
