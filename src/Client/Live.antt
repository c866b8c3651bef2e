-- ===== src/Client/Live.antt =====
-- client/client_impl.cc: over any order of events the client's own work goes on.
use pyxis.Prelude.{
  ℕ, ◌+◌, ◌-◌, ◌^◌, ◌≤◌, ◌<◌, Bytes, true, false, List, [], ◌∷◌, none, some, ◌≡◌, refl, sym, ap,
  ◌∙◌, arith, ◌==◌, inl, inr, Bool-cases, Option-cases,
}
use pyxis.Messages.{Request}
use pyxis.Maps.Keys.{nat_key}
use pyxis.Maps.{find, erase}
use pyxis.Rpc
use pyxis.Rpc.{
  Done, Effect, call_in_loop, on_connection, on_rpc_message, on_call_timeout, close, clear_calls,
  reset_all,
}
use pyxis.Rpc.Counts.{
  Input, react, call, message, timeout, connection, closing, waiting, ended, made, ended-reset_all,
}
use pyxis.Rpc.Once.{Counted, counted}
use pyxis.Client.Impl.{Impl, Action, is_connected, act, send_all, on_done, on_done_all}
use pyxis.Client.Loop.{
  Happening, connects, disconnects, receives, call_expires, timer_fires, drops, user, handle,
  can_happen, on_rpc, on_connected, on_connection_timeout, drop_old, user_call,
}
use pyxis.Client.Callbacks.{on_ping-IsOn, on_register-IsOn}
use pyxis.Client.Quiet.{
  IsOn, own, own_all, same, send_all-IsOn, register-IsOn, reset_connection-IsOn,
}

-- The own calls among those that ended.
abbrev own_ended : List Done → ℕ
own_ended ds = ended 0 ds + ended 1 ds

-- Calls of users alone ended.
others-IsOn :
    (n : ℕ) (addr : Bytes) (ds : List Done) (s : Impl)
    → own_ended ds ≡ 0
    → IsOn n s
    → IsOn n (on_done_all addr ds s)
unfolding on_done_all on_done ended
others-IsOn n addr [] s h v = v
others-IsOn n addr (d ∷ ds) s h v = elim (Bool-cases (d.call == 0)) [
  | inl a ↦ absurd (ground arith)
  | inr a ↦ elim (Bool-cases (d.call == 1)) [
    | inl b ↦ absurd (ground arith)
    | inr b ↦
        rw (a, b, on_done)
          (others-IsOn n addr ds _ (ground arith) (same n s _ v refl refl refl refl))
  ]
]

-- One of the client's own ended among them.
one-IsOn :
    (addr : Bytes) (ds : List Done) (s : Impl)
    → own_ended ds ≡ 1
    → s.rpc.xid + 1 < 2 ^ 64
    → IsOn 0 s
    → IsOn 1 (on_done_all addr ds s)
unfolding on_done_all on_done ended
one-IsOn addr [] s h room v = absurd (ground arith)
one-IsOn addr (d ∷ ds) s h room v = elim (Bool-cases (d.call == 0)) [
  | inl a ↦
      rw (a, on_done) (others-IsOn 1 addr ds _ (ground arith) (on_register-IsOn addr d s v room))
  | inr a ↦ elim (Bool-cases (d.call == 1)) [
    | inl b ↦
        rw (a, b, on_done) (others-IsOn 1 addr ds _ (ground arith) (on_ping-IsOn addr d s v room))
    | inr b ↦
        rw (a, b, on_done)
          (one-IsOn addr ds _ (ground arith) room (same 0 s _ v refl refl refl refl))
  ]
]

-- Nothing waits on a connection that is not there, behind an input as before it.
react-idle :
    (i : Input) (c : Rpc.Client)
    → (c.connected ≡ false → c.pending ≡ [])
    → (react i c).client.connected ≡ false
    → (react i c).client.pending ≡ []
unfolding react call_in_loop on_rpc_message on_call_timeout on_connection close clear_calls erase
react-idle (call n req) c h e = ground (arith, h)
react-idle (message rep) c h e =
    elim (Option-cases (find (elim rep.xid [ none ↦ 0 | some x ↦ x ]) c.pending)) [
      | inl f ↦ ground (arith, h)
      | inr (m, f) ↦ ground (arith, h)
    ]
react-idle (timeout x) c h e = elim (Option-cases (find x c.pending)) [
  | inl f ↦ ground (arith, h)
  | inr (m, f) ↦ ground (arith, h)
]
react-idle (connection true) c h e = absurd (ground arith)
react-idle (connection false) c h e = refl
react-idle closing c h e = refl

send_all-rpc : (reqs : List Request) (s : Impl) → (send_all reqs s).rpc ≡ s.rpc
send_all-rpc [] s = refl
send_all-rpc (r ∷ reqs) s = send_all-rpc reqs (act (Action.sends r) s)

recount : (m n : ℕ) (s : Impl) → m ≡ n → IsOn m s → IsOn n s
recount m n s e v = record {
  alive = v.alive;
  client = v.client;
  under_way = omega (arith, e, v.under_way);
  idle = v.idle;
  past = v.past;
}

-- An input that makes no call of the client's own.
on_rpc-IsOn :
    (addr : Bytes) (i : Input) (s : Impl)
    → made 0 (i ∷ []) + made 1 (i ∷ []) ≡ 0
    → s.rpc.xid + 2 < 2 ^ 64
    → IsOn 1 s
    → IsOn 1 (on_rpc addr i s)
unfolding on_rpc
on_rpc-IsOn addr i s m room v =
    let c : Counted i s.rpc = counted i s.rpc v.client (omega (arith, room)) in
    let e = react i s.rpc in
    let n : ℕ = s.timers + own e.client in
    let w : IsOn n (record s { rpc = e.client }) = record {
      alive = v.alive;
      client = c.good;
      under_way = refl;
      idle = react-idle i s.rpc v.idle;
      past = v.past;
    } in
    elim (Bool-cases (own_ended e.done == 0)) [
      | inl z ↦ others-IsOn 1 addr e.done _ (ground arith) (
          send_all-IsOn 1 e.sent _
            (recount n 1 _ (ground (arith, c.counts 0, c.counts 1, v.under_way)) w))
      | inr z ↦
          one-IsOn addr e.done _ (ground (arith, c.counts 0, c.counts 1, v.under_way))
            (rw (send_all-rpc e.sent (record s { rpc = e.client })) (omega (arith, room, c.later)))
            (send_all-IsOn 0 e.sent _
              (recount n 0 _ (ground (arith, c.counts 0, c.counts 1, v.under_way)) w))
    ]

-- Behind onConnection the timer of the attempt is off, and the registration is under way.
on_connected-IsOn :
    (addr : Bytes) (s : Impl)
    → s.rpc.connected ≡ false
    → s.rpc.xid + 2 < 2 ^ 64
    → IsOn 1 s
    → IsOn 1 (on_connected addr s)
unfolding on_connected on_rpc react on_connection on_done_all waiting
on_connected-IsOn addr s h room v =
    register-IsOn addr (record s { rpc = record s.rpc { connected = true }; timers = s.timers - 1 })
      (record {
        alive = v.alive;
        client = record { sorted = v.client.sorted; given = v.client.given };
        under_way = ground (arith, v.under_way, v.idle h);
        idle = λ i. absurd (ground arith);
        past = v.past;
      })
      (omega (arith, room))

-- A connection that is destroyed has calls of users alone.
dropped :
    (addr : Bytes) (cs : List Rpc.Client) (s : Impl)
    → s.old ≡ cs
    → IsOn 1 s
    → IsOn 1 (drop_old addr s)
unfolding drop_old react close clear_calls own_all
dropped addr [] s h v = rw (h, drop_old) v
dropped addr (c ∷ cs) s h v =
    let past : own c + own_all cs ≡ 0 = ap own_all (sym h) ∙ v.past in
    rw (h, drop_old)
      (others-IsOn 1 addr (reset_all c.pending) (record s { old = cs })
        (omega (arith, past, ended-reset_all 0 c.pending, ended-reset_all 1 c.pending))
        (record {
          alive = v.alive;
          client = v.client;
          under_way = v.under_way;
          idle = v.idle;
          past = omega (arith, past);
        }))

user_call-IsOn :
    (addr : Bytes) (n : ℕ) (req : Request) (s : Impl)
    → 2 ≤ n
    → s.rpc.xid + 2 < 2 ^ 64
    → IsOn 1 s
    → IsOn 1 (user_call addr n req s)
unfolding user_call made
user_call-IsOn addr n req s h room v = elim (Bool-cases (is_connected s.state)) [
  | inl a ↦
      rw (v.alive, a, user_call)
        (on_rpc-IsOn addr (call n (record req { sid = some s.sid })) s (ground arith) room v)
  | inr a ↦ rw (v.alive, a, user_call) (same 1 s _ v refl refl refl refl)
]

-- Whatever happens to the client, one attempt, registration or ping is under way behind it.
pub handle-IsOn :
    (addr : Bytes) (h : Happening) (s : Impl)
    → can_happen h s ≡ true
    → s.rpc.xid + 2 < 2 ^ 64
    → IsOn 1 s
    → IsOn 1 (handle addr h s)
unfolding handle can_happen on_connection_timeout made
handle-IsOn addr connects s can room v = on_connected-IsOn addr s (ground arith) room v
handle-IsOn addr disconnects s can room v = on_rpc-IsOn addr (connection false) s refl room v
handle-IsOn addr (receives rep) s can room v = on_rpc-IsOn addr (message rep) s refl room v
handle-IsOn addr (call_expires x) s can room v = on_rpc-IsOn addr (timeout x) s refl room v
handle-IsOn addr timer_fires s can room v =
    reset_connection-IsOn addr (record s { timers = s.timers - 1 })
      (record {
        alive = v.alive;
        client = v.client;
        under_way = ground (arith, v.under_way);
        idle = v.idle;
        past = v.past;
      })
handle-IsOn addr drops s can room v = dropped addr s.old s refl v
handle-IsOn addr (user n req) s can room v = user_call-IsOn addr n req s (ground arith) room v
