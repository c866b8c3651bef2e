-- ===== src/Replica/Agree.antt =====
-- Servers that ran the same log hold the same replica.
use pyxis.Prelude.{ℕ, Bytes, true, List, [], ◌∷◌, Option, some, ◌≡◌, refl, sym, ap, subst, ◌∙◌}
use pyxis.Common.Status.{is_ok}
use pyxis.Db.{Env}
use pyxis.Db.Laws.{IsEnv}
use pyxis.Store.{returns}
use pyxis.Store.Saved.{set_commit_index}
use pyxis.Server.{Server, State, Options}
use pyxis.Messages.{Request, no_request}
use pyxis.Server.Events.{on_state, enter_leader}
use pyxis.Server.Recovery.{on_synced}
use pyxis.Server.Loops.{Looping, enter}
use pyxis.Server.Holds.{
  one_result, Holds-checked, Holds, Holds-chain, of_result, of_none, held_by, Holds-elim,
}
use pyxis.Replica.{replica_of, IsKeyed}
use pyxis.Replica.Calm.{Calm, Calm-trans}
use pyxis.Replica.Timer.{stepped-Calm, on_state-Calm, enter_leader-Calm}
use pyxis.Replica.Log.{
  Entry, saved, replay_one, replay, logged, Ran, stays, enters, turns, changes, syncs,
}
use pyxis.Replica.Replay.{Replays, Replays-trans, Calm-Replays, turn_by}

module _ (env : Env) (l : IsEnv env) (parse : Bytes → Option Request) (add_ms : ℕ → ℕ → ℕ)
    (o : Options) (addresses : List Bytes) (raft_stop raft_leader : ℕ) where
  enter_by :
      (times : ℕ → ℕ) (begin : List ℕ → ℕ) (now e : ℕ) (m : Looping env) (st : State)
      → m.server.state ≡ st
      → Holds
          (λ n. Replays env m.server [] n.server)
          (enter env add_ms o addresses raft_stop raft_leader times begin now e m)
  unfolding enter
  enter_by times begin now e m State.leader q =
      rw (q, enter)
        (Holds-chain (Calm env m.server) (λ (n : Looping env). Replays env m.server [] n.server)
          (enter_leader env add_ms now times begin m.server) _
          (enter_leader-Calm env add_ms now times begin m.server)
          (λ s c.
            Holds-chain (Calm env s) (λ (n : Looping env). Replays env m.server [] n.server) _ _
              (stepped-Calm env add_ms now o s e)
              (λ t d.
                of_result (record m { server = t })
                  (Calm-Replays env m.server t (Calm-trans env m.server s t c d)))))
  enter_by times begin now e m State.waiter q =
      let asked : Server env = record (m.server) {
        broadcast = record no_request { sid = some now; ping = true } ∷ m.server.broadcast;
      } in
      rw (q, enter) (of_result _ (Calm-Replays env m.server asked (λ k. refl)))
  enter_by times begin now e m State.follower q =
      rw (q, enter) (of_result m (Calm-Replays env m.server m.server (λ k. refl)))
  enter_by times begin now e m State.stop q =
      rw (q, enter) (of_result m (Calm-Replays env m.server m.server (λ k. refl)))

  synced-Replays :
      (now index : ℕ) (entry : Bytes) (s : Server env)
      → Holds
          (λ (r : Server env × Request). Replays env s (saved index ∷ []) r.0)
          (on_synced env add_ms now parse s index entry)
  unfolding on_synced replay replay_one
  synced-Replays now index entry s =
      let P : Server env × Request → Type 0 = λ r. Replays env s (saved index ∷ []) r.0 in
      Holds-checked P (is_ok (set_commit_index env s.store index).1) _
        (λ b. Holds-elim P (parse entry) _ _ of_none (λ cmd. of_result _ (λ k. rw b refl)))

  ran :
      (m n : Looping env) (log : List Entry)
      → Ran env parse add_ms o addresses raft_stop raft_leader m log n
      → Replays env m.server log n.server
  ran m _ _ (stays _) = Calm-Replays env m.server m.server (λ k. refl)
  ran m n log (enters times begin now e _ u _ _ h r) =
      Replays-trans env m.server u.server n.server [] log
        (held_by (λ (v : Looping env). Replays env m.server [] v.server) _ u
          (enter_by times begin now e m m.server.state refl) h)
        (ran u n log r)
  ran m n _ (turns now c _ u _ log h r) =
      Replays-trans env m.server u.server n.server (logged m.server.state m.tag c) log
        (held_by
          (λ (v : Looping env). Replays env m.server (logged m.server.state m.tag c) v.server) _ u
          (turn_by env l add_ms now o addresses raft_stop raft_leader c m m.server.state refl) h)
        (ran u n log r)
  ran m n log (changes now _ _ _ r) =
      let s : Server env = on_state env add_ms now m.server in
      Replays-trans env m.server s n.server [] log
        (Calm-Replays env m.server s (on_state-Calm env add_ms now m.server))
        (ran (record m { server = s }) n log r)
  ran m n _ (syncs now index entry _ _ log s cmd h r) =
      Replays-trans env m.server s n.server (saved index ∷ []) log
        (held_by (λ (v : Server env × Request). Replays env m.server (saved index ∷ []) v.0) _
          (s, cmd) (synced-Replays now index entry m.server) h)
        (ran (record m { server = s }) n log r)

  -- A server that ran a log, over any turns of mainLoop, entries into its loops, changes of raft's
  -- state and calls of onSynced in any order and at any times, holds the replica that the log makes
  -- of the replica that it held before.
  pub Ran-replays :
      (m n : Looping env) (log : List Entry)
      → IsKeyed env (replica_of env m.server)
      → Ran env parse add_ms o addresses raft_stop raft_leader m log n
      → replay env (replica_of env m.server) log ≡ returns (replica_of env n.server)
  Ran-replays m n log keyed r = ran m n log r keyed

-- Two servers with the same replica that ran the same log hold the same replica again, though each ran
-- it in its own states, at its own times and with its own clients, options and timers between.
pub Ran-agree :
    (env : Env) (l : IsEnv env) (parse : Bytes → Option Request) (add_ms add_ms' : ℕ → ℕ → ℕ)
    (o o' : Options) (addresses addresses' : List Bytes) (raft_stop raft_leader : ℕ)
    (m n m' n' : Looping env) (log : List Entry)
    → IsKeyed env (replica_of env m.server)
    → replica_of env m.server ≡ replica_of env m'.server
    → Ran env parse add_ms o addresses raft_stop raft_leader m log n
    → Ran env parse add_ms' o' addresses' raft_stop raft_leader m' log n'
    → replica_of env n.server ≡ replica_of env n'.server
Ran-agree env l parse add_ms add_ms' o o' addresses addresses' raft_stop raft_leader m n m' n' log
      keyed same r r' =
    let e = Ran-replays env l parse add_ms o addresses raft_stop raft_leader m n log keyed r in
    let e' =
      Ran-replays env l parse add_ms' o' addresses' raft_stop raft_leader m' n' log
        (subst (IsKeyed env) same keyed) r' in
    one_result _ _ (sym e ∙ ap (λ q. replay env q log) same ∙ e')
