-- ===== src/Replica/Replay.antt =====
-- A run of a server replays the entries that it ran.
use pyxis.Prelude.{
  ℕ, Bytes, true, ◌&&◌, List, [], ◌∷◌, ◌++◌, ◌≡◌, ◌≢◌, refl, sym, ap, ◌∙◌, arith, Bool-cases, inl,
  inr, if◌then◌else◌, ◌==◌,
}
use pyxis.Common.Status.{Status, is_ok}
use pyxis.Db.{Env}
use pyxis.Db.Laws.{IsEnv}
use pyxis.Store.{Run, returns}
use pyxis.Store.Saved.{set_commit_index}
use pyxis.Server.{Server, State, Options, chain, is_leader}
use pyxis.Messages.{Request, sid_of}
use pyxis.Server.Commands.{on_command}
use pyxis.Server.Events.{
  on_timer, waiter_notified, waiter_command, follower_notified, leader_notified,
}
use pyxis.Server.Loops.{
  Choice, notified, event, command, timer, Looping, turn, leader_turn, follower_turn, waiter_turn,
}
use pyxis.Server.Holds.{
  Holds, Holds-chain, Holds-after, of_result, of_none, held_by, Run-cases, weakened, Holds-check,
}
use pyxis.Replica
use pyxis.Replica.{Replica, replica_of, IsKeyed}
use pyxis.Replica.Calm.{Calm}
use pyxis.Replica.Mirror.{seen}
use pyxis.Replica.Keyed.{command-Keyed}
use pyxis.Replica.Dispatch.{on_command-seen}
use pyxis.Replica.Events.{handle_event-Calm}
use pyxis.Replica.Timer.{on_timer-Calm, follower_event-Calm}
use pyxis.Replica.Log.{Entry, applied, saved, replay_one, replay, logged}

module _ (env : Env) where
  -- The replica of a server behind entries.
  abbrev pub Replays : Server env → List Entry → Server env → Type 0
  Replays s log t =
      IsKeyed env (replica_of env s)
      → replay env (replica_of env s) log ≡ returns (replica_of env t)

  replay_one-Keyed :
      (r : Replica env) (x : Entry) → IsKeyed env r → Holds (IsKeyed env) (replay_one env r x)
  unfolding replay_one
  replay_one-Keyed r (applied cmd) h =
      Holds-chain (λ (q : Replica env × Status). IsKeyed env q.0) (IsKeyed env)
        (Replica.command env r cmd) _ (command-Keyed env r cmd h) (λ q k. of_result q.0 k)
  replay_one-Keyed r (saved index) h =
      Holds-check (IsKeyed env) (is_ok (set_commit_index env r.store index).1) _ (of_result _ h)

  pub replay-Keyed :
      (log : List Entry) (r : Replica env) → IsKeyed env r → Holds (IsKeyed env) (replay env r log)
  unfolding replay
  replay-Keyed [] r h = of_result r h
  replay-Keyed (x ∷ log) r h =
      Holds-chain (IsKeyed env) (IsKeyed env) (replay_one env r x) _ (replay_one-Keyed r x h)
        (λ q k. replay-Keyed log q k)

  replay-append :
      (log more : List Entry) (r q : Replica env)
      → replay env r log ≡ returns q
      → replay env r (log ++ more) ≡ replay env q more
  unfolding replay
  replay-append [] more r q h = ap (λ z. chain z (λ p. replay env p more)) h
  replay-append (x ∷ log) more r q h = elim (Run-cases (replay_one env r x)) [
    | inl e ↦ absurd (ground (arith, h, e))
    | inr (p, e) ↦
        let rest : replay env p log ≡ returns q =
          sym (ap (λ z. chain z (λ y. replay env y log)) e) ∙ h in
        ap (λ z. chain z (λ y. replay env y (log ++ more))) e ∙ replay-append log more p q rest
  ]

  pub Replays-trans :
      (s t u : Server env) (log more : List Entry)
      → Replays s log t
      → Replays t more u
      → Replays s (log ++ more) u
  Replays-trans s t u log more h g keyed =
      replay-append log more (replica_of env s) (replica_of env t) (h keyed)
      ∙ g (
          held_by (IsKeyed env) (replay env (replica_of env s) log) (replica_of env t)
            (replay-Keyed log (replica_of env s) keyed) (h keyed))

  pub Calm-Replays : (s t : Server env) → Calm env s t → Replays s [] t
  unfolding replay
  Calm-Replays s t h keyed = ap returns (sym (h keyed))

  -- A change of the state alone.
  moved : (s : Server env) (st : State) → Replays s [] (record s { state = st })
  moved s st = Calm-Replays s (record s { state = st }) (λ k. refl)

  module _ (l : IsEnv env) (add_ms : ℕ → ℕ → ℕ) (now : ℕ) where
    command-Replays :
        (s : Server env) (cmd : Request)
        → Holds (Replays s (applied cmd ∷ [])) (on_command env add_ms now s cmd)
    unfolding replay replay_one on_command
    command-Replays s cmd = elim (Run-cases (on_command env add_ms now s cmd)) [
      | inl e ↦ rw e of_none
      | inr (t, e) ↦
          let asked : is_leader s.state ≡ true → s.requests ≢ [] =
            λ b q. absurd (ground (arith, b, q, e)) in
          rw e (
            of_result t (λ keyed.
              ap (λ z. chain z (λ q. returns q))
                (sym (on_command-seen env l add_ms now s cmd keyed asked)
                  ∙ ap (seen (replica_of env)) e)))
    ]

    pub Calm-run :
        (s : Server env) (r : Run (Server env)) → Holds (Calm env s) r → Holds (Replays s []) r
    Calm-run s r h = weakened (Calm env s) (Replays s []) r (λ t c. Calm-Replays s t c) h

    waiter_command-Replays :
        (s : Server env) (tag : ℕ) (cmd : Request)
        → Holds
            (Replays s (if cmd.ping && sid_of cmd == tag then [] else applied cmd ∷ []))
            (waiter_command env add_ms now tag s cmd)
    unfolding waiter_command
    waiter_command-Replays s tag cmd = elim (Bool-cases (cmd.ping && sid_of cmd == tag)) [
      | inl b ↦ rw (b, waiter_command) (of_result _ (moved s State.leader))
      | inr b ↦ rw (b, waiter_command) (command-Replays s cmd)
    ]

    module _ (o : Options) (addresses : List Bytes) (raft_stop raft_leader : ℕ) where
      leader_turn-Replays :
          (s : Server env) (tag : ℕ) (c : Choice)
          → Holds
              (Replays s (logged State.leader tag c))
              (leader_turn env add_ms o addresses raft_stop raft_leader now c s)
      unfolding leader_turn logged
      leader_turn-Replays s tag (notified n) =
          of_result _ (moved s (leader_notified raft_stop raft_leader n))
      leader_turn-Replays s tag (event e req id) =
          Calm-run s _ (handle_event-Calm env add_ms now o s e req)
      leader_turn-Replays s tag (command cmd) = command-Replays s cmd
      leader_turn-Replays s tag (timer e) = Calm-run s _ (
          Holds-chain (λ (r : Server env × ℕ). Calm env s r.0) (Calm env s)
            (on_timer env add_ms now o s e) _ (on_timer-Calm env add_ms now o s e)
            (λ r k. of_result r.0 k))

      follower_turn-Replays :
          (s : Server env) (tag : ℕ) (c : Choice)
          → Holds
              (Replays s (logged State.follower tag c))
              (follower_turn env add_ms o addresses raft_stop raft_leader now c s)
      unfolding follower_turn logged
      follower_turn-Replays s tag (notified n) =
          of_result _ (moved s (follower_notified raft_stop raft_leader n))
      follower_turn-Replays s tag (event e req id) =
          Calm-run s _ (follower_event-Calm env add_ms now id addresses s e)
      follower_turn-Replays s tag (command cmd) = command-Replays s cmd
      follower_turn-Replays s tag (timer e) = of_result s (Calm-Replays s s (λ k. refl))

      waiter_turn-Replays :
          (s : Server env) (tag : ℕ) (c : Choice)
          → Holds
              (Replays s (logged State.waiter tag c))
              (waiter_turn env add_ms o addresses raft_stop raft_leader now tag c s)
      unfolding waiter_turn logged
      waiter_turn-Replays s tag (notified n) =
          Holds-after (Replays s []) (waiter_notified raft_stop raft_leader n) _
            (λ st. of_result _ (moved s st))
      waiter_turn-Replays s tag (event e req id) = of_result s (Calm-Replays s s (λ k. refl))
      waiter_turn-Replays s tag (command cmd) = waiter_command-Replays s tag cmd
      waiter_turn-Replays s tag (timer e) = of_result s (Calm-Replays s s (λ k. refl))

      stopped-Replays :
          (s : Server env) (tag : ℕ) (c : Choice) → Replays s (logged State.stop tag c) s
      unfolding logged
      stopped-Replays s tag (notified n) = Calm-Replays s s (λ k. refl)
      stopped-Replays s tag (event e req id) = Calm-Replays s s (λ k. refl)
      stopped-Replays s tag (command cmd) = Calm-Replays s s (λ k. refl)
      stopped-Replays s tag (timer e) = Calm-Replays s s (λ k. refl)

      in_loop :
          (m : Looping env) (log : List Entry) (r : Run (Server env))
          → Holds (Replays m.server log) r
          → Holds
              (λ n. Replays m.server log n.server)
              (chain r (λ s. returns (record m { server = s })))
      in_loop m log r h =
          Holds-chain (Replays m.server log) (λ (n : Looping env). Replays m.server log n.server) r
            _ h (λ s k. of_result _ k)

      pub turn_by :
          (c : Choice) (m : Looping env) (st : State)
          → m.server.state ≡ st
          → Holds
              (λ n. Replays m.server (logged m.server.state m.tag c) n.server)
              (turn env add_ms o addresses raft_stop raft_leader now c m)
      unfolding turn
      turn_by c m State.leader q =
          rw (q, turn) (in_loop m _ _ (leader_turn-Replays m.server m.tag c))
      turn_by c m State.waiter q =
          rw (q, turn) (in_loop m _ _ (waiter_turn-Replays m.server m.tag c))
      turn_by c m State.follower q =
          rw (q, turn) (in_loop m _ _ (follower_turn-Replays m.server m.tag c))
      turn_by c m State.stop q =
          rw (q, turn) (in_loop m _ _ (of_result m.server (stopped-Replays m.server m.tag c)))
