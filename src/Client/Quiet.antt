-- ===== src/Client/Quiet.antt =====
-- The continuation of the client's own work: one connection attempt, registration or ping at a time.
use pyxis.Prelude.{
  ℕ, ◌+◌, ◌^◌, ◌≤◌, ◌<◌, Bytes, true, false, List, [], ◌∷◌, ◌++◌, none, some, ◌≡◌, refl, arith,
  if◌then◌else◌, ◌==◌, inl, inr, Bool-cases, ◌⊎◌, codes,
}
use pyxis.Common.Status
use pyxis.Common.Status.{is_ok, is_timeout}
use pyxis.Messages.{Request, Response, no_request, no_response}
use pyxis.Rpc
use pyxis.Rpc.{Done, Effect, new_client, call_in_loop}
use pyxis.Rpc.Counts.{react, call, waiting, ended, made, below}
use pyxis.Rpc.Once.{IsClient, Counted, counted}
use pyxis.Client.Impl.{
  Impl, is_closed, is_connected, reset_connection, register, send_all, on_ping_failed, ping, triger,
}
use pyxis.Watch.{Event}
use pyxis.Maps.Ascending.{ascending}

-- The registrations and pings that wait.
abbrev pub own : Rpc.Client → ℕ
own c = waiting 0 c.pending + waiting 1 c.pending

unfoldable pub own_all : List Rpc.Client → ℕ
own_all [] = 0
own_all (c ∷ cs) = own c + own_all cs

-- The client is open, with the given number of own calls and timers under way; nothing waits on a
-- connection that is not there, and none of its own calls on one that was given up.
pub record IsOn (n : ℕ) (s : Impl) : Type 0 where
  pub alive : is_closed s.state ≡ false
  pub client : IsClient s.rpc
  pub under_way : s.timers + own s.rpc ≡ n
  pub idle : s.rpc.connected ≡ false → s.rpc.pending ≡ []
  pub past : own_all s.old ≡ 0

own_all-append :
    (cs : List Rpc.Client) (c : Rpc.Client) → own_all (cs ++ c ∷ []) ≡ own_all cs + own c
unfolding own_all
own_all-append [] c = omega arith
own_all-append (d ∷ cs) c = omega (arith, own_all-append cs c)

pub reset_connection-IsOn : (addr : Bytes) (s : Impl) → IsOn 0 s → IsOn 1 (reset_connection addr s)
unfolding reset_connection waiting ascending below
reset_connection-IsOn addr s v =
    rw (v.alive, reset_connection)
      (record {
        alive = v.alive;
        client = record { sorted = refl; given = refl };
        under_way = omega (arith, v.under_way);
        idle = λ h. refl;
        past = omega (arith, v.past, v.under_way, own_all-append s.old s.rpc);
      })

-- Whether the parts of the state that matter here are as they were.
pub same :
    (n : ℕ) (s t : Impl)
    → IsOn n s
    → t.state ≡ s.state
    → t.rpc ≡ s.rpc
    → t.timers ≡ s.timers
    → t.old ≡ s.old
    → IsOn n t
same n s t v a b c d = record {
  alive = rw a v.alive;
  client = rw b v.client;
  under_way = rw (b, c) v.under_way;
  idle = rw b v.idle;
  past = rw d v.past;
}

pub triger-IsOn :
    (n : ℕ) (path : Bytes) (e : Event) (s : Impl) → IsOn n s → IsOn n (triger path e s)
unfolding triger
triger-IsOn n path e s v = same n s (triger path e s) v refl refl refl refl

pub send_all-IsOn : (n : ℕ) (reqs : List Request) (s : Impl) → IsOn n s → IsOn n (send_all reqs s)
send_all-IsOn n [] s v = v
send_all-IsOn n (r ∷ reqs) s v = send_all-IsOn n reqs _ (same n s _ v refl refl refl refl)

pub failed-cases :
    (addr : Bytes) (rep : Response) (s : Impl)
    → (on_ping_failed addr rep s ≡ reset_connection s.address (record s { sid = 0 }))
      ⊎ (on_ping_failed addr rep s ≡ reset_connection addr s)
unfolding on_ping_failed
failed-cases addr rep s = ground arith

pub on_ping_failed-IsOn :
    (addr : Bytes) (rep : Response) (s : Impl) → IsOn 0 s → IsOn 1 (on_ping_failed addr rep s)
on_ping_failed-IsOn addr rep s v = elim (failed-cases addr rep s) [
  | inl e ↦ rw e (
      reset_connection-IsOn s.address (record s { sid = 0 })
        (same 0 s (record s { sid = 0 }) v refl refl refl refl))
  | inr e ↦ rw e (reset_connection-IsOn addr s v)
]

-- A call of the client's own over a connection is under way.
own_call :
    (n : ℕ) (req : Request) (s : Impl)
    → IsOn 0 s
    → s.rpc.xid + 1 < 2 ^ 64
    → n ≤ 1
    → s.rpc.connected ≡ true
    → IsOn 1 (record s { rpc = (call_in_loop s.rpc n req).client })
unfolding call_in_loop react made ended
own_call n req s v room h w =
    let c : Counted (call n req) s.rpc = counted (call n req) s.rpc v.client room in
    record {
      alive = v.alive;
      client = c.good;
      under_way = ground (arith, c.counts 0, c.counts 1, v.under_way);
      idle = λ i. absurd (ground arith);
      past = v.past;
    }

pub connected-done :
    (n : ℕ) (req : Request) (c : Rpc.Client) → c.connected ≡ true → (call_in_loop c n req).done ≡ []
unfolding call_in_loop
connected-done n req c h = ground arith

lost-done :
    (n : ℕ) (req : Request) (c : Rpc.Client)
    → c.connected ≡ false
    → (d : Done) × ((call_in_loop c n req).done ≡ d ∷ [])
unfolding call_in_loop
lost-done n req c h = (
  record { call = n; status = Status.disconnect (codes "not connected"); response = none },
  rw h refl,
)

lost-client :
    (n : ℕ) (req : Request) (c : Rpc.Client)
    → c.connected ≡ false
    → (call_in_loop c n req).client ≡ c
unfolding call_in_loop
lost-client n req c h = rw h refl

lost_call :
    (n : ℕ) (req : Request) (s : Impl)
    → IsOn 0 s
    → s.rpc.connected ≡ false
    → (let e = call_in_loop s.rpc n req in IsOn 0 (send_all e.sent (record s { rpc = e.client })))
lost_call n req s v h = send_all-IsOn 0 (call_in_loop s.rpc n req).sent _ (
    same 0 s (record s { rpc = (call_in_loop s.rpc n req).client }) v refl
      (lost-client n req s.rpc h) refl refl)

pub unconnected :
    (addr : Bytes) (s : Impl)
    → is_connected s.state ≡ false
    → is_closed s.state ≡ false
    → ping addr s ≡ on_ping_failed addr no_response s
unfolding ping
unconnected addr s a b = ground arith

pub ping-IsOn : (addr : Bytes) (s : Impl) → IsOn 0 s → s.rpc.xid + 1 < 2 ^ 64 → IsOn 1 (ping addr s)
unfolding ping
ping-IsOn addr s v room = elim (Bool-cases (is_connected s.state)) [
  | inr a ↦ rw (unconnected addr s a v.alive) (on_ping_failed-IsOn addr no_response s v)
  | inl a ↦
      let req : Request = record no_request { sid = some s.sid; ping = true } in
      elim (Bool-cases s.rpc.connected) [
        | inl b ↦
            rw (a, connected-done 1 req s.rpc b, ping)
              (send_all-IsOn 1 (call_in_loop s.rpc 1 req).sent _
                (own_call 1 req s v room (omega arith) b))
        | inr b ↦
            let (d, e) = lost-done 1 req s.rpc b in
            rw (a, e, ping) (on_ping_failed-IsOn addr no_response _ (lost_call 1 req s v b))
      ]
]

pub register-IsOn :
    (addr : Bytes) (s : Impl) → IsOn 0 s → s.rpc.xid + 1 < 2 ^ 64 → IsOn 1 (register addr s)
unfolding register
register-IsOn addr s v room =
    let req : Request = record no_request {
      sid = if s.sid == 0 then none else some s.sid;
      register = some s.timeout;
    } in
    elim (Bool-cases s.rpc.connected) [
      | inl b ↦
          rw (connected-done 0 req s.rpc b, register)
            (send_all-IsOn 1 (call_in_loop s.rpc 0 req).sent _
              (own_call 0 req s v room (omega arith) b))
      | inr b ↦
          let (d, e) = lost-done 0 req s.rpc b in
          rw (e, register) (reset_connection-IsOn addr _ (lost_call 0 req s v b))
    ]
