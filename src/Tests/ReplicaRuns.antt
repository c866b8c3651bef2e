-- ===== src/Tests/ReplicaRuns.antt =====
-- Runs of the replica.
use pyxis.Prelude.{ℕ, Bytes, codes, true, List, [], ◌∷◌, Option, none, some, ◌≡◌, ◌≢◌, refl}
use pyxis.Store.{Run, returns, aborts}
use pyxis.Store.View.{view}
use pyxis.Server.{Server, State}
use pyxis.Server.Loops.{Looping, turn, command}
use pyxis.Server.Commands.{on_command, on_unregister, on_register, on_create}
use pyxis.Messages.{Request, no_request}
use pyxis.Sessions.Manager.{raise_sid, insert_session, remove}
use pyxis.Maps.{erase, set_insert}
use pyxis.Common.Status
use pyxis.Store
use pyxis.Tests.Memory.{starts_with}
use pyxis.Replica
use pyxis.Replica.{replica_of}
use pyxis.Replica.Mirror.{seen}
use pyxis.Replica.Log.{Entry, applied, Ran, stays, turns, logged}
use pyxis.Replica.Dispatch.{on_command-seen}
use pyxis.Replica.Agree.{Ran-agree}
use pyxis.Replica.Linked.{Linked}
use pyxis.Replica.Held.{ephemeral_of}
use pyxis.Replica.Clean.{IsClean, Ran-IsClean, on_unregister-clears}
use pyxis.Replica.Start.{new_store-IsClean}
use pyxis.Tests.Memory.{env, env-IsEnv}
use pyxis.Tests.StoreRuns.{empty_store, empty_store_made, pyxis-IsName}
use pyxis.Tests.SessionRuns.{add_ms, fresh}
use pyxis.Tests.ServerRuns.{bounds}
use pyxis.Store.Saved.{add_session, remove_session}
use pyxis.Server.Calls.{triger_both, destroy_session, delete_node}
use pyxis.Watch.{triger_fuel, triger_loop, cut, and_then, triger_internal}
use pyxis.Sessions.{bind_node}

-- A server on a new store.
abbrev base : Server env
base = record {
  state = State.follower;
  requests = [];
  store = empty_store;
  manager = fresh;
  watchers = [];
  responses = [];
  broadcast = [];
}

abbrev follower : Looping env
follower = record { server = base; tag = 0 }

-- One that leads, with an event of its own before the command.
abbrev leader : Looping env
leader = record { server = record base { state = State.leader; requests = 5 ∷ 6 ∷ [] }; tag = 0 }

abbrev join_seven : Request
join_seven = record no_request { sid = some 7; register = some 5000 }

abbrev make_e : Request
make_e = record no_request {
  sid = some 7;
  create = some (record { path = codes "/e"; flags = 1; content = [] });
}

abbrev leave_seven : Request
leave_seven = record no_request { sid = some 7; unregister = true }

no_request_in : Bytes → Option Request
no_request_in b = none

abbrev or_same : Looping env → Run (Looping env) → Looping env
or_same l (returns m) = m
or_same l aborts = l

abbrev taking : ℕ → Request → Looping env → Run (Looping env)
taking now cmd l = turn env add_ms bounds [] 0 1 now (command cmd) l

unfoldable joined : Looping env → Looping env
unfolding turn on_command on_register add_session insert_session raise_sid on_create triger_both
    triger_fuel triger_loop cut and_then triger_internal bind_node on_unregister remove
    remove_session erase destroy_session set_insert delete_node
joined l = or_same l (taking 10 join_seven l)

unfoldable made : Looping env → Looping env
unfolding turn on_command on_register add_session insert_session raise_sid on_create triger_both
    triger_fuel triger_loop cut and_then triger_internal bind_node on_unregister remove
    remove_session erase destroy_session set_insert delete_node
made l = or_same l (taking 20 make_e l)

joins : taking 10 join_seven follower ≡ returns (joined follower)
unfolding joined
joins = refl

makes : taking 20 make_e (joined follower) ≡ returns (made (joined follower))
unfolding joined made Store.create starts_with empty_store
makes = refl

leader_joins : taking 10 join_seven leader ≡ returns (joined leader)
unfolding joined
leader_joins = refl

leader_makes : taking 20 make_e (joined leader) ≡ returns (made (joined leader))
unfolding joined made Store.create starts_with empty_store
leader_makes = refl

abbrev two_entries : List Entry
two_entries = applied join_seven ∷ applied make_e ∷ []

follower-Ran :
    Ran env no_request_in add_ms bounds [] 0 1 follower two_entries (made (joined follower))
unfolding joined made logged
follower-Ran =
    turns 10 (command join_seven) follower (joined follower) _ _ joins
      (turns 20 (command make_e) (joined follower) (made (joined follower)) _ _ makes (stays _))

leader-Ran : Ran env no_request_in add_ms bounds [] 0 1 leader two_entries (made (joined leader))
unfolding joined made logged
leader-Ran =
    turns 10 (command join_seven) leader (joined leader) _ _ leader_joins
      (turns 20 (command make_e) (joined leader) (made (joined leader)) _ _ leader_makes (stays _))

base-IsClean : IsClean env (replica_of env base)
base-IsClean =
    new_store-IsClean env env-IsEnv [] [] b'p' (codes "yxis") pyxis-IsName (λ k. refl) base
      empty_store_made refl

Ran-agree_example :
    replica_of env (made (joined follower)).server ≡ replica_of env (made (joined leader)).server
Ran-agree_example =
    Ran-agree env env-IsEnv no_request_in add_ms add_ms bounds bounds [] [] 0 1 follower
      (made (joined follower)) leader (made (joined leader)) two_entries base-IsClean.0 refl
      follower-Ran leader-Ran

Ran-IsClean_example : IsClean env (replica_of env (made (joined follower)).server)
Ran-IsClean_example =
    Ran-IsClean env env-IsEnv no_request_in add_ms bounds [] 0 1 follower (made (joined follower))
      two_entries base-IsClean follower-Ran

on_command-seen_example :
    seen (replica_of env) (on_command env add_ms 10 leader.server join_seven)
    ≡ seen (λ p. p.0) (Replica.command env (replica_of env leader.server) join_seven)
on_command-seen_example =
    on_command-seen env env-IsEnv add_ms 10 leader.server join_seven base-IsClean.0 (λ _ h. cc)

-- The node that session 7 left behind is there before it ends.
there : ephemeral_of (view env (made (joined follower)).server.store (codes "/e")) ≡ some 7
unfolding joined made view Store.create starts_with empty_store
there = refl

unfoldable left : Server env
unfolding turn on_command on_register add_session insert_session raise_sid on_create triger_both
    triger_fuel triger_loop cut and_then triger_internal bind_node on_unregister remove
    remove_session erase destroy_session set_insert delete_node joined made
left = elim (on_unregister env add_ms 30 (made (joined follower)).server leave_seven) [
  | returns (t, st) ↦ t
  | aborts ↦ base
]

leaves :
    on_unregister env add_ms 30 (made (joined follower)).server leave_seven
    ≡ returns (left, Status.ok)
unfolding left Store.create starts_with empty_store
leaves = refl

on_unregister-clears_example :
    Linked env (replica_of env left) × ((p : Bytes) → ephemeral_of (view env left.store p) ≢ some 7)
on_unregister-clears_example =
    on_unregister-clears env env-IsEnv add_ms 30 (made (joined follower)).server left leave_seven
      Status.ok Ran-IsClean_example leaves
