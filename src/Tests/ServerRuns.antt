-- ===== src/Tests/ServerRuns.antt =====
-- Runs of the server.
use pyxis.Prelude.{ℕ, Bytes, codes, true, false, List, [], ◌∷◌, some, ◌≡◌, refl}
use pyxis.Maps.{set_insert, erase}
use pyxis.Common.Status.{Status}
use pyxis.Store.{Run, returns, aborts}
use pyxis.Store.Invariant.{IsStore}
use pyxis.Store.Saved.{add_session, remove_session}
use pyxis.Watch.{triger_fuel, triger_loop, triger_internal, cut, and_then}
use pyxis.Sessions.{Session, new_session, bind_node, remove_node}
use pyxis.Sessions.Manager.{raise_sid, insert_session, remove}
use pyxis.Server.{Server, State, Options, chain}
use pyxis.Messages.{Request, CreateRequest, WriteRequest, no_request}
use pyxis.Server.Calls.{triger_both, delete_node, destroy_session}
use pyxis.Server.Commands.{on_register, on_unregister, on_create, on_delete, on_write, on_command}
use pyxis.Server.Nodes.{on_create-returns, on_delete-returns, on_write-returns}
use pyxis.Common.Status
use pyxis.Server.Proc.{on_proc_cluster}
use pyxis.Node
use pyxis.Prelude.{beq}
use pyxis.Tests.Memory.{env, env-IsEnv, encode}
use pyxis.Tests.StoreRuns.{one_node, one_node-IsStore}
use pyxis.Tests.SessionRuns.{add_ms, fresh}

-- A follower whose store has the node /a.
abbrev pub start : Server env
start = record {
  state = State.follower;
  requests = [];
  store = one_node;
  manager = fresh;
  watchers = [];
  responses = [];
  broadcast = [];
}

abbrev child : CreateRequest
child = record { path = codes "/a/b"; flags = 0; content = 3 ∷ [] }

on_create-returns_example :
    (r : Server env × Status) × (on_create env add_ms 0 start 7 child ≡ returns r)
    × IsStore env r.0.store
on_create-returns_example = on_create-returns env env-IsEnv add_ms 0 start one_node-IsStore 7 child

on_delete-returns_example :
    (r : Server env × Status) × (on_delete env add_ms 0 start 7 (codes "/a") ≡ returns r)
    × IsStore env r.0.store
on_delete-returns_example =
    on_delete-returns env env-IsEnv add_ms 0 start one_node-IsStore 7 (codes "/a")

abbrev rewrite_a : WriteRequest
rewrite_a = record { path = codes "/a"; content = 4 ∷ [] }

on_write-returns_example :
    (r : Server env × Status) × (on_write env add_ms 0 start rewrite_a ≡ returns r)
    × IsStore env r.0.store
on_write-returns_example = on_write-returns env env-IsEnv add_ms 0 start one_node-IsStore rewrite_a

abbrev pub bounds : Options
bounds = record { max_session_timeout = 120000; min_session_timeout = 5000 }

-- With session 7.
abbrev seven : Session
seven = new_session 0 7 5000

abbrev joined : Server env
joined = record start { manager = record fresh { sessions = (7, seven) ∷ [] } }

abbrev watch_a : Request
watch_a = record no_request {
  sid = some 7;
  watch = some (record { path = codes "/a"; watch = 4; recursive = false });
}

run_log : Server env → List Request → Run (Server env)
run_log s [] = returns s
run_log s (cmd ∷ cmds) = chain (on_command env add_ms 0 s cmd) (λ t. run_log t cmds)

abbrev creating : ℕ → Bytes → ℕ → Request
creating sid path flags = record no_request {
  sid = some sid;
  create = some (record { path = path; flags = flags; content = [] });
}

abbrev joining : ℕ → Request
joining sid = record no_request { sid = some sid; register = some 5000 }

-- Session 1 creates the ephemeral /e, session 2 deletes it, and session 1 creates it again, now
-- persistent; a child is made under it.
abbrev history : List Request
history =
    joining 1
    ∷ joining 2
    ∷ creating 1 (codes "/e") 1
    ∷ record no_request { sid = some 2; delete = some (codes "/e") }
    ∷ creating 1 (codes "/e") 0
    ∷ creating 2 (codes "/e/c") 0
    ∷ []

or_start : Run (Server env) → Server env
or_start (returns s) = s
or_start aborts = start

unfoldable before_end : Server env
unfolding on_command run_log one_node on_register add_session insert_session raise_sid on_create
    triger_both triger_fuel triger_loop cut and_then triger_internal on_delete delete_node bind_node
    remove_node or_start
before_end = or_start (run_log start history)

-- Every command of the history returns.
history-returns : run_log start history ≡ returns before_end
unfolding before_end
history-returns = refl

-- When session 1 ends, its destructor takes the persistent node for its own ephemeral one, and a
-- CHECK fails since the node has a child.
history-aborts :
    on_command env add_ms 0 before_end (record no_request { sid = some 1; unregister = true })
    ≡ aborts
unfolding before_end on_unregister remove remove_session erase destroy_session set_insert
history-aborts = refl

-- The address of the second of two servers, which leads.
leader_address :
    on_proc_cluster env 2 (codes "a:1" ∷ codes "b:1" ∷ []) (codes "a:1,b:1") (codes "leader" ∷ [])
    ≡ returns (Status.ok, encode (record Node.empty { content = codes "b:1" }))
unfolding on_proc_cluster beq
leader_address = refl
