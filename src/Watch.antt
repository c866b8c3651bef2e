-- ===== src/Watch.antt =====
-- The watch manager of the server: server/watch_manager.cc, server/watcher.h and the events of
-- common/watch_event.h.
pub mod Triger
pub mod Ancestors
use Prim.Native.Nat.{bit_and}
use pyxis.Prelude.{
  ℕ, zero, suc, Bytes, Bool, true, false, not, ◌&&◌, ◌||◌, List, [], ◌∷◌, ◌++◌, Option, none, some,
  ◌==◌, if◌then◌else◌, beq, rfind, take,
}
use pyxis.Paths.{slash, root, is_empty}

-- watch::EventType, a set of bits.
abbrev pub create : ℕ
create = 1

abbrev pub delete : ℕ
delete = 2

abbrev pub modify : ℕ
modify = 4

abbrev pub children : ℕ
children = 8

-- watch::Event.
pub record Event : Type 0 where
  pub node : Bytes
  pub type : ℕ

-- Watcher, whose callback the server supplies.
pub record Watcher : Type 0 where
  pub path : Bytes
  pub sid : ℕ
  pub mask : ℕ
  pub recursive : Bool

-- watchers_, a multimap: the entries of one key in the order of insertion.
abbrev pub Watchers : Type 0
Watchers = List (Bytes × Watcher)

-- Add.
unfoldable pub add : Watchers → Bytes → Watcher → Watchers
add ws path w = ws ++ (path, w) ∷ []

-- Remove: the first entry of the watcher's path with its session id.
unfoldable pub remove : Watchers → Watcher → Watchers
remove [] w = []
remove ((k, v) ∷ ws) w = if beq k w.path && w.sid == v.sid then ws else (k, v) ∷ remove ws w

-- HasWatcher.
unfoldable pub has_watcher : Watchers → Bytes → Bool
has_watcher [] path = false
has_watcher ((k, v) ∷ ws) path = beq k path || has_watcher ws path

-- The test of trigerInternal.
unfoldable pub hits : Event → Bool → Watcher → Bool
hits e from_child w = (not from_child || w.recursive) && not (bit_and w.mask e.type == 0)

-- The watchers that are left, and those notified, in order.
pub record Fired : Type 0 where
  pub left : Watchers
  pub notified : List Watcher

-- trigerInternal: Notify and erase every entry of a path that the event hits.
unfoldable pub triger_internal : Bytes → Event → Bool → Watchers → Fired
unfolding hits
triger_internal path e from_child [] = record { left = []; notified = [] }
triger_internal path e from_child ((k, w) ∷ ws) =
    let rest = triger_internal path e from_child ws in
    if beq k path && hits e from_child w
    then record { left = rest.left; notified = w ∷ rest.notified }
    else record { left = (k, w) ∷ rest.left; notified = rest.notified }

-- A further call of trigerInternal on what is left.
unfoldable pub and_then : Fired → Bytes → Event → Bool → Fired
and_then f path e from_child =
    let g = triger_internal path e from_child f.left in
    record { left = g.left; notified = f.notified ++ g.notified }

-- path.substr(0, path.rfind("/")): the whole path where there is no slash.
unfoldable pub cut : Bytes → Bytes
cut path = elim (rfind slash path) [ none ↦ path | some i ↦ take i path ]

-- The while loop of Triger; none when the fuel runs out.
unfoldable pub triger_loop : ℕ → Event → Bytes → Fired → Option Fired
triger_loop zero e path f = none
triger_loop (suc n) e path f =
    let rest = triger_loop n e (cut path) (and_then f path e true) in
    if is_empty path then some f else rest

-- Triger, with fuel for its loop.
unfoldable pub triger_fuel : ℕ → Event → Watchers → Option Fired
triger_fuel n e ws = elim (triger_loop n e (cut e.node) (triger_internal e.node e false ws)) [
  | none ↦ none
  | some f ↦ some (and_then f root e true)
]
