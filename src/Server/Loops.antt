-- ===== src/Server/Loops.antt =====
-- server.cc: mainLoop and the loops of the states, whose selector chooses one channel at a time.
use pyxis.Prelude.{
  ℕ, zero, suc, Bytes, true, false, List, ◌∷◌, some, ◌≡◌, refl, ap, ◌∙◌, arith, Bool-cases, inl,
  inr, ◌==◌, ◌&&◌,
}
use pyxis.Db.{Env}
use pyxis.Store.{Run, returns, aborts}
use pyxis.Server.{Server, State, Options, chain, is_leader}
use pyxis.Sessions.Manager.{step}
use pyxis.Messages.{Request, sid_of, no_request}
use pyxis.Server.Commands.{on_command, run_command, answer}
use pyxis.Server.Events.{
  handle_event, close_all, on_timer, enter_leader, follower_event, leader_notified,
  follower_notified, waiter_notified, waiter_command, nth_address,
}
use pyxis.Server.Holds.{
  Holds, of_result, of_none, Holds-chain, Holds-if, Holds-elim, held_by, weakened,
}
use pyxis.Server.KeptCommands.{run_command-Keeps, KeepsWith}

-- What a selector chose: a number from the state channel, an event with raft's leader id at that time,
-- a command, or the timer with the number of its first event.
pub data Choice : Type 0 where
  notified : ℕ → Choice
  event : ℕ → Request → ℕ → Choice
  command : Request → Choice
  timer : ℕ → Choice

-- The server, and the time that tags the ping of waitLoop.
pub record Looping (env : Env) : Type 0 where
  pub server : Server env
  pub tag : ℕ

module _ (env : Env) (add_ms : ℕ → ℕ → ℕ) (o : Options) (addresses : List Bytes)
    (raft_stop raft_leader : ℕ) where
  -- What a loop does before it waits. leaderLoop calls Step for its timer, and the sessions that
  -- expired send events numbered from a number on.
  unfoldable pub enter : (ℕ → ℕ) → (List ℕ → ℕ) → ℕ → ℕ → Looping env → Run (Looping env)
  unfolding enter_leader close_all
  enter times begin now e l = elim l.server.state [
    | State.leader ↦ chain (enter_leader env add_ms now times begin l.server) (λ s.
        let (m, closed, next) = step add_ms now now s.manager in
        chain (close_all env add_ms now o (record s { manager = m }) e closed)
          (λ t. returns (record l { server = t })))
    | State.waiter ↦ returns (record {
      server = record (l.server) {
        broadcast = record no_request { sid = some now; ping = true } ∷ l.server.broadcast;
      };
      tag = now;
    })
    | State.follower ↦ returns l
    | State.stop ↦ returns l
  ]

  -- One turn of leaderLoop.
  unfoldable pub leader_turn : ℕ → Choice → Server env → Run (Server env)
  unfolding leader_notified handle_event on_command on_timer
  leader_turn now (notified n) s =
      returns (record s { state = leader_notified raft_stop raft_leader n })
  leader_turn now (event e req id) s = handle_event env add_ms now o s e req
  leader_turn now (command cmd) s = on_command env add_ms now s cmd
  leader_turn now (timer e) s = chain (on_timer env add_ms now o s e) (λ r. returns r.0)

  -- One turn of followerLoop, which has no timer.
  unfoldable pub follower_turn : ℕ → Choice → Server env → Run (Server env)
  unfolding follower_notified follower_event on_command
  follower_turn now (notified n) s =
      returns (record s { state = follower_notified raft_stop raft_leader n })
  follower_turn now (event e req id) s = follower_event env add_ms now id addresses s e
  follower_turn now (command cmd) s = on_command env add_ms now s cmd
  follower_turn now (timer e) s = returns s

  -- One turn of waitLoop, which takes no event.
  unfoldable pub waiter_turn : ℕ → ℕ → Choice → Server env → Run (Server env)
  unfolding waiter_notified waiter_command
  waiter_turn now tag (notified n) s =
      chain (waiter_notified raft_stop raft_leader n)
        (λ state. returns (record s { state = state }))
  waiter_turn now tag (event e req id) s = returns s
  waiter_turn now tag (command cmd) s = waiter_command env add_ms now tag s cmd
  waiter_turn now tag (timer e) s = returns s

  -- One turn of mainLoop's loop for the state.
  unfoldable pub turn : ℕ → Choice → Looping env → Run (Looping env)
  unfolding leader_turn follower_turn waiter_turn
  turn now c l =
      chain
        (elim l.server.state [
          | State.leader ↦ leader_turn now c l.server
          | State.waiter ↦ waiter_turn now l.tag c l.server
          | State.follower ↦ follower_turn now c l.server
          | State.stop ↦ returns l.server
        ])
        (λ s. returns (record l { server = s }))

  -- Elsewhere than by its own ping a state that does not lead does not come to lead.
  abbrev NotLeading : Server env → Type 0
  NotLeading s = is_leader s.state ≡ false

  on_command-quiet :
      (now : ℕ) (s : Server env) (cmd : Request)
      → NotLeading s
      → Holds NotLeading (on_command env add_ms now s cmd)
  unfolding on_command answer
  on_command-quiet now s cmd h =
      rw (h, on_command)
        (Holds-chain (KeepsWith env now add_ms s) NotLeading (run_command env add_ms now s cmd) _
          (run_command-Keeps env now add_ms s cmd)
          (λ r k. of_result _ (ap (λ (c : List ℕ × List Request × State). is_leader c.2) k ∙ h)))

  fresh_state : (n : ℕ) → is_leader (follower_notified raft_stop raft_leader n) ≡ false
  unfolding follower_notified
  fresh_state n = ground arith

  follower_event-quiet :
      (now id : ℕ) (s : Server env) (e : ℕ)
      → NotLeading s
      → Holds NotLeading (follower_event env add_ms now id addresses s e)
  unfolding follower_event
  follower_event-quiet now zero s e h = of_result _ h
  follower_event-quiet now (suc n) s e h =
      Holds-elim NotLeading (nth_address env add_ms now n addresses) aborts _ of_none
        (λ a. of_result _ h)

  waiter_notified-quiet :
      (n : ℕ) → Holds (λ st. is_leader st ≡ false) (waiter_notified raft_stop raft_leader n)
  unfolding waiter_notified
  waiter_notified-quiet n =
      Holds-if (λ st. is_leader st ≡ false) (n == raft_stop) _ _ (of_result _ refl)
        (Holds-if (λ st. is_leader st ≡ false) (n == 0) _ _ of_none (of_result _ refl))

  follower_turn-quiet :
      (now : ℕ) (c : Choice) (s : Server env)
      → NotLeading s
      → Holds NotLeading (follower_turn now c s)
  unfolding follower_turn
  follower_turn-quiet now (notified n) s h = of_result _ (fresh_state n)
  follower_turn-quiet now (event e req id) s h = follower_event-quiet now id s e h
  follower_turn-quiet now (command cmd) s h = on_command-quiet now s cmd h
  follower_turn-quiet now (timer e) s h = of_result _ h

  -- What may make a waiter the leader.
  abbrev pub OwnPing : ℕ → Choice → Type 0
  OwnPing tag c = (cmd : Request) × (c ≡ command cmd) × (cmd.ping ≡ true) × (sid_of cmd ≡ tag)

  waiter_command-quiet :
      (now tag : ℕ) (cmd : Request) (s : Server env)
      → NotLeading s
      → Holds
          (λ t. is_leader t.state ≡ true → OwnPing tag (command cmd))
          (waiter_command env add_ms now tag s cmd)
  unfolding waiter_command
  waiter_command-quiet now tag cmd s h = elim (Bool-cases (cmd.ping && sid_of cmd == tag)) [
    | inl b ↦ rw (b, waiter_command) (of_result _ (λ k. (cmd, refl, ground arith, ground arith)))
    | inr b ↦
        rw (b, waiter_command)
          (weakened NotLeading (λ t. is_leader t.state ≡ true → OwnPing tag (command cmd)) _
            (λ t k j. absurd (ground (arith, k, j))) (on_command-quiet now s cmd h))
  ]

  waiter_turn-quiet :
      (now tag : ℕ) (c : Choice) (s : Server env)
      → NotLeading s
      → Holds (λ t. is_leader t.state ≡ true → OwnPing tag c) (waiter_turn now tag c s)
  unfolding waiter_turn
  waiter_turn-quiet now tag (notified n) s h =
      Holds-chain (λ st. is_leader st ≡ false)
        (λ t. is_leader t.state ≡ true → OwnPing tag (notified n))
        (waiter_notified raft_stop raft_leader n) _ (waiter_notified-quiet n)
        (λ st k. of_result _ (λ j. absurd (ground (arith, k, j))))
  waiter_turn-quiet now tag (event e req id) s h = of_result _ (λ k. absurd (ground (arith, h, k)))
  waiter_turn-quiet now tag (command cmd) s h = waiter_command-quiet now tag cmd s h
  waiter_turn-quiet now tag (timer e) s h = of_result _ (λ k. absurd (ground (arith, h, k)))

  turn_by :
      (now : ℕ) (c : Choice) (l : Looping env) (st : State)
      → l.server.state ≡ st
      → is_leader st ≡ false
      → Holds
          (λ m. is_leader m.server.state ≡ true → (st ≡ State.waiter) × OwnPing l.tag c)
          (turn now c l)
  unfolding turn
  turn_by now c l State.leader q h = absurd (ground (arith, h))
  turn_by now c l State.waiter q h =
      rw (q, turn)
        (Holds-chain (λ t. is_leader t.state ≡ true → OwnPing l.tag c)
          (λ m. is_leader m.server.state ≡ true → (State.waiter ≡ State.waiter) × OwnPing l.tag c)
          (waiter_turn now l.tag c l.server) _
          (waiter_turn-quiet now l.tag c l.server (ap is_leader q))
          (λ t w. of_result _ (λ k. (refl, w k))))
  turn_by now c l State.follower q h =
      rw (q, turn)
        (Holds-chain NotLeading
          (λ m. is_leader m.server.state ≡ true → (State.follower ≡ State.waiter) × OwnPing l.tag c)
          (follower_turn now c l.server) _ (follower_turn-quiet now c l.server (ap is_leader q))
          (λ t w. of_result _ (λ k. absurd (ground (arith, w, k)))))
  turn_by now c l State.stop q h =
      rw (q, turn) (of_result _ (λ k. absurd (ground (arith, k, ap is_leader q))))

  -- A turn in which the server comes to lead is one of waitLoop, which took the ping that it tagged.
  pub turn-leads :
      (now : ℕ) (c : Choice) (l m : Looping env)
      → turn now c l ≡ returns m
      → is_leader l.server.state ≡ false
      → is_leader m.server.state ≡ true
      → (l.server.state ≡ State.waiter) × OwnPing l.tag c
  turn-leads now c l m e h k =
      held_by
        (λ x. is_leader x.server.state ≡ true → (l.server.state ≡ State.waiter) × OwnPing l.tag c)
        (turn now c l) m (turn_by now c l l.server.state refl h) e k
