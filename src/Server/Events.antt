-- ===== src/Server/Events.antt =====
-- server.cc: the events that clients send, the timers, and the changes of the raft state.
use pyxis.Prelude.{
  ℕ, zero, suc, ◌^◌, Bytes, codes, Bool, true, not, ◌&&◌, ◌||◌, List, [], ◌∷◌, ◌++◌, Option, none,
  some, if◌then◌else◌, leb, ltb, ◌==◌,
}
use pyxis.Maps.Keys.{nat_key}
use pyxis.Common.Code.{ErrorType}
use pyxis.Common.Status
use pyxis.Common.Status.{Status, is_ok, is_not_found}
use pyxis.Node
use pyxis.Node.{Node}
use pyxis.Db.{Env}
use pyxis.Store.{Store, Run, returns, aborts, get}
use pyxis.Store
use pyxis.Sessions.{Session, hold_ping, ping_back, has_pending_watcher}
use pyxis.Sessions.Manager.{
  get_session, gen_sid, get_sessions, touch, reset_pending_ping, reset_timer, reset_watchers, step,
}
use pyxis.Server.{Server, State, Options, fail_with, respond, response_of, deliver, chain}
use pyxis.Messages.{Request, sid_of, is_some, no_request}
use pyxis.Server.Calls.{put_session}
use pyxis.Server.Commands.{expired, or_aborts, on_watch, on_command}

-- needBoradcast.
unfoldable pub need_broadcast : Request → Bool
need_broadcast req =
    req.unregister
    || is_some req.register
    || is_some req.create
    || is_some req.delete
    || is_some req.write

-- The timeout of a registration within the bounds of the options; the word is an int32.
unfoldable pub clamp : Options → ℕ → ℕ
clamp o word =
    let low =
      if leb (2 ^ 31) word || ltb word o.min_session_timeout then o.min_session_timeout else word in
    if ltb o.max_session_timeout low then o.max_session_timeout else low

module _ (env : Env) (add_ms : ℕ → ℕ → ℕ) (now : ℕ) where
  -- replicate, and the event in the queue.
  unfoldable pub enqueue : Server env → ℕ → Request → Server env
  enqueue s e req = record s { requests = s.requests ++ e ∷ []; broadcast = req ∷ s.broadcast }

  -- handleRegister.
  unfoldable pub handle_register : Options → Server env → ℕ → Request → Server env
  unfolding clamp enqueue
  handle_register o s e req =
      let timeout = clamp o (elim req.register [ none ↦ 0 | some t ↦ t ]) in
      let (manager, fresh) = gen_sid s.manager in
      elim req.sid [
        | some sid ↦ elim (get_session s.manager sid) [
          | some x ↦
              respond env (put_session env now s (record x { timeout = timeout })) e
                (record (response_of env s e) { sid = some sid })
          | none ↦ respond env s e (record (response_of env s e) {
            err = some (record { type = ErrorType.session_expired; payload = [] });
          })
        ]
        | none ↦
            enqueue (record s { manager = manager }) e
              (record no_request { sid = some fresh; register = some timeout })
      ]

  unfoldable pub hold_and_answer : Server env → ℕ → Session → Server env
  unfolding hold_ping ping_back
  hold_and_answer s e x =
      let (held, dropped) = hold_ping x e in
      let (pinged, answers) = ping_back now held in
      if has_pending_watcher held
      then deliver env (put_session env now s pinged) answers
      else put_session env now s held

  -- handlePing.
  unfoldable pub handle_ping : Server env → ℕ → ℕ → Run (Server env × Status)
  unfolding hold_and_answer
  handle_ping s e sid = elim (get_session s.manager sid) [
    | none ↦ returns (s, expired)
    | some _ ↦ chain (or_aborts (touch add_ms now sid s.manager)) (λ m. elim (get_session m sid) [
      | none ↦ aborts
      | some x ↦ returns (hold_and_answer (record s { manager = m }) e x, Status.ok)
    ])
  ]

  -- handleRead.
  unfoldable pub handle_read : Server env → ℕ → Request → Bytes → Server env × Status
  handle_read s e req path = elim (get_session s.manager (sid_of req)) [
    | none ↦ (s, expired)
    | some _ ↦
        let (st, content) = Store.read env s.store path in
        let s' = respond env s e (record (response_of env s e) { content = some content }) in
        let watched = on_watch env add_ms now s' req in
        if not (is_ok st) then (s, st) else if is_some req.watch then watched else (s', Status.ok)
  ]

  -- handleStat. A serialization that fails leaves the data empty.
  unfoldable pub handle_stat : Server env → ℕ → Request → Bytes → Server env × Status
  handle_stat s e req path = elim (get_session s.manager (sid_of req)) [
    | none ↦ (s, expired)
    | some _ ↦
        let (st, node) = get env s.store path Node.empty in
        let s' =
          respond env s e (record (response_of env s e) {
            content = some (Store.serialize_as_string env node);
          }) in
        let watched = on_watch env add_ms now s' req in
        let waiting = on_watch env add_ms now s req in
        if is_ok st
        then (if is_some req.watch then watched else (s', Status.ok))
        else if is_not_found st && is_some req.watch
        then (waiting.0, (if is_ok waiting.1 then st else waiting.1))
        else (s, st)
  ]

  -- The requests that are not broadcast.
  unfoldable pub handle_local : Server env → ℕ → Request → Run (Server env × Status)
  unfolding handle_ping handle_read handle_stat
  handle_local s e req = if req.ping then handle_ping s e (sid_of req) else elim req.read [
    | some path ↦ returns (handle_read s e req path)
    | none ↦ elim req.stat [
      | some path ↦ returns (handle_stat s e req path)
      | none ↦
          if is_some req.watch
          then returns (on_watch env add_ms now s req)
          else returns (s, Status.ok)
    ]
  ]

  -- handleEvent.
  unfoldable pub handle_event : Options → Server env → ℕ → Request → Run (Server env)
  unfolding handle_register need_broadcast handle_local enqueue
  handle_event o s e req =
      if is_some req.register
      then returns (handle_register o s e req)
      else elim (get_session s.manager (sid_of req)) [
        | none ↦ returns (fail_with env s e expired)
        | some _ ↦
            chain
              (if not req.ping && not req.unregister
                then chain (or_aborts (touch add_ms now (sid_of req) s.manager))
                    (λ m. returns (record s { manager = m }))
                else returns s)
              (λ t.
                if need_broadcast req
                then returns (enqueue t e req)
                else chain (handle_local t e req)
                    (λ r. returns (if is_ok r.1 then r.0 else fail_with env r.0 e r.1)))
      ]

  -- onSessionClosed for the sessions that Step closed, with events numbered from a number on.
  unfoldable pub close_all : Options → Server env → ℕ → List ℕ → Run (Server env)
  unfolding handle_event
  close_all o s e [] = returns s
  close_all o s e (sid ∷ sids) =
      chain (handle_event o s e (record no_request { sid = some sid; unregister = true }))
        (λ t. close_all o t (suc e) sids)

  unfoldable pub ping_back_all : Server env → List ℕ → Server env
  unfolding ping_back
  ping_back_all s [] = s
  ping_back_all s (sid ∷ sids) = elim (get_session s.manager sid) [
    | none ↦ ping_back_all s sids
    | some x ↦
        let (pinged, answers) = ping_back now x in
        ping_back_all (deliver env (put_session env now s pinged) answers) sids
  ]

  -- The timer of leaderLoop: Step, whose callbacks leave the sessions as they are, and PingBack of
  -- the sessions that expire at the next check. The time of that check is returned.
  unfoldable pub on_timer : Options → Server env → ℕ → Run (Server env × ℕ)
  unfolding close_all ping_back_all
  on_timer o s e =
      let (m, closed, next) = step add_ms now now s.manager in
      chain (close_all o (record s { manager = m }) e closed) (λ t.
        elim (get_sessions t.manager next) [
          | none ↦ returns (t, next)
          | some set ↦ returns (ping_back_all t set, next)
        ])

  -- The answers of onState to the pending requests.
  unfoldable pub all_again : Server env → List ℕ → Server env
  all_again s [] = s
  all_again s (e ∷ es) =
      all_again (fail_with env s e (Status.again (codes "net error, try again"))) es

  -- onState, without its Put to the state channel.
  unfoldable pub on_state : Server env → Server env
  unfolding all_again reset_pending_ping
  on_state s =
      let t = record (all_again s s.requests) { requests = [] } in
      let (m, answers) = reset_pending_ping now t.manager in
      deliver env (record t { manager = m }) answers

  -- What leaderLoop does before it waits.
  unfoldable pub enter_leader : (ℕ → ℕ) → (List ℕ → ℕ) → Server env → Run (Server env)
  enter_leader times begin s =
      chain (or_aborts (reset_timer add_ms times begin s.manager))
        (λ m. returns (record s { manager = reset_watchers m; watchers = [] }))

  -- An event that a follower takes: raft's leader id, and the address list.
  unfoldable pub nth_address : ℕ → List Bytes → Option Bytes
  nth_address n [] = none
  nth_address zero (a ∷ rest) = some a
  nth_address (suc n) (a ∷ rest) = nth_address n rest

  unfoldable pub follower_event : ℕ → List Bytes → Server env → ℕ → Run (Server env)
  unfolding nth_address
  follower_event zero addresses s e = returns (fail_with env s e (Status.again (codes "try again")))
  follower_event (suc n) addresses s e = elim (nth_address n addresses) [
    | none ↦ aborts
    | some a ↦ returns (fail_with env s e (Status.not_leader a))
  ]

-- The states that a loop goes to when it takes a number from the state channel, where raft's STOP
-- and LEADER are parameters.
module _ (raft_stop raft_leader : ℕ) where
  unfoldable pub leader_notified : ℕ → State
  leader_notified n = if n == raft_stop then State.stop else State.follower

  unfoldable pub follower_notified : ℕ → State
  follower_notified n =
      if n == raft_stop
      then State.stop
      else if n == raft_leader
      then State.waiter
      else State.follower

  -- Its CHECK compares with kLeader, the 0 of the server's own states.
  unfoldable pub waiter_notified : ℕ → Run State
  waiter_notified n =
      if n == raft_stop
      then returns State.stop
      else if n == 0
      then aborts
      else returns State.follower

-- A command that waitLoop takes: its own ping makes it the leader.
unfoldable pub waiter_command :
    (env : Env) → (ℕ → ℕ → ℕ) → ℕ → ℕ → Server env → Request → Run (Server env)
unfolding on_command
waiter_command env add_ms now tag s cmd =
    let ran = on_command env add_ms now s cmd in
    if cmd.ping && sid_of cmd == tag then returns (record s { state = State.leader }) else ran
