-- ===== src/Tests/LoadRuns.antt =====
-- A server that loads a snapshot with an ephemeral node whose session has no row.
use pyxis.Prelude.{ℕ, Bytes, codes, [], ◌≡◌, refl}
use pyxis.Db.{Lookup}
use pyxis.Store.{Store, Run, returns, aborts, new_store}
use pyxis.Store
use pyxis.Store.View.{view}
use pyxis.Store.Invariant.{IsStore, create-IsStore}
use pyxis.Server.{Server, State}
use pyxis.Server.Recovery.{on_load_snapshot}
use pyxis.Replica.{replica_of}
use pyxis.Replica.Clean.{IsClean}
use pyxis.Replica.Start.{new_store-IsClean}
use pyxis.Replica.Loaded.{on_load_snapshot-IsClean}
use pyxis.Tests.Slots.{slot_env, slot_env-IsEnv, seek-Ascends, seek_complete}
use pyxis.Prelude.{arith, beq, rfind}
use pyxis.Tests.Memory.{starts_with, encode, decode, trim_left}
use pyxis.Tests.Slots.{kept, write_slots}
use pyxis.Store.{put, get}
use pyxis.Paths.{is_valid_path, invalid_char, split_path}
use pyxis.Node.{add_child}
use pyxis.Tests.StoreRuns.{pyxis-IsName}
use pyxis.Tests.SessionRuns.{add_ms, fresh}
use pyxis.Store.Saved.{walk_sessions, walk_tree, add_session, get_commit_index}
use pyxis.Tests.Slots.{rows_from}
use pyxis.Maps.Keys.{bytes_lt}
use pyxis.Words.{le_bytes}
use pyxis.Maps.{find}
use pyxis.Server.Commands.{add_to_manager}
use pyxis.Sessions.{to_protobuf}
use pyxis.Sessions.Manager.{raise_sid, insert_session}

abbrev made_or : Store slot_env → Run (Store slot_env) → Store slot_env
made_or s (returns t) = t
made_or s aborts = s

unfoldable bare : Store slot_env
unfolding new_store
bare =
    made_or (record { persist = []; proc = []; proc_root = [] })
      (new_store slot_env [] [] (codes "/pyxis"))

bare_made : new_store slot_env [] [] (codes "/pyxis") ≡ returns bare
unfolding bare kept beq put is_valid_path invalid_char encode add_child trim_left starts_with
    write_slots
bare_made = refl

abbrev on_store : Store slot_env → Server slot_env
on_store s = record {
  state = State.follower;
  requests = [];
  store = s;
  manager = fresh;
  watchers = [];
  responses = [];
  broadcast = [];
}

unset : (k : Bytes) → slot_env.persist_db.get [] k ≡ Lookup.not_found
unfolding kept
unset k = ground arith

bare-IsClean : IsClean slot_env (replica_of slot_env (on_store bare))
bare-IsClean =
    new_store-IsClean slot_env slot_env-IsEnv [] [] b'p' (codes "yxis") pyxis-IsName (λ k. unset k)
      (on_store bare) bare_made refl

-- With the ephemeral node /e of session 7.
unfoldable with_e : Store slot_env
unfolding bare Store.create starts_with put get is_valid_path invalid_char encode decode add_child
    trim_left write_slots kept split_path rfind beq
with_e = (Store.create slot_env bare (codes "/e") [] 1 7).0

with_e-IsStore : IsStore slot_env with_e
unfolding with_e
with_e-IsStore = create-IsStore slot_env slot_env-IsEnv bare bare-IsClean.1.good (codes "/e") [] 1 7

unfoldable reloaded : Server slot_env × ℕ
unfolding on_load_snapshot with_e
reloaded = elim (on_load_snapshot slot_env add_ms 10 (on_store with_e)) [
  | returns r ↦ r
  | aborts ↦ (on_store with_e, 0)
]

reloads : on_load_snapshot slot_env add_ms 10 (on_store with_e) ≡ returns reloaded
unfolding reloaded walk_sessions rows_from bytes_lt le_bytes walk_tree find add_to_manager
    add_session to_protobuf insert_session raise_sid get_commit_index
reloads = refl

on_load_snapshot-IsClean_example :
    IsClean slot_env (replica_of slot_env reloaded.0)
    × ((k : Bytes) → view slot_env reloaded.0.store k ≡ view slot_env with_e k)
on_load_snapshot-IsClean_example =
    on_load_snapshot-IsClean slot_env slot_env-IsEnv seek-Ascends seek_complete add_ms 10
      (on_store with_e) reloaded.0 reloaded.1 with_e-IsStore bare-IsClean.0 reloads
