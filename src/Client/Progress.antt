-- ===== src/Client/Progress.antt =====
-- client/client_impl.cc: a client whose call stays without a response goes on by itself.
use pyxis.Prelude.{
  ℕ, suc, ◌+◌, ◌-◌, ◌≤◌, Bytes, zero, true, false, List, [], ◌∷◌, none, some, ◌≡◌, refl, ap, arith,
  ltb, leb, inl, inr, Bool-cases, codes, ◌++◌, ◌∙◌, ◌⊎◌,
}
use pyxis.Common.Status
use pyxis.Common.Status.{Status}
use pyxis.Messages.{Request, Request, Response, no_request, no_response}
use pyxis.Maps.{find, erase}
use pyxis.Maps.Keys.{nat_key}
use pyxis.Maps.Ascending.{ascending, above, find-above}
use pyxis.Rpc
use pyxis.Rpc.{Done, Effect, call_in_loop, on_call_timeout}
use pyxis.Rpc.Counts.{react, timeout, waiting}
use pyxis.Client.Impl.{
  Impl, Action, ping_call, send_all, is_closed, is_connected, reset_connection, on_refused,
  on_register, on_ping, on_ping_failed, ping, on_done, on_done_all,
}
use pyxis.Client.Loop.{call_expires, timer_fires, handle, can_happen, on_rpc, on_connection_timeout}
use pyxis.Client.Quiet.{IsOn, failed-cases, unconnected, connected-done}
use pyxis.Client.Reached.{Reach, Reach-IsOn}

-- An own call that waits has an id.
own_id :
    (calls : List (ℕ × ℕ))
    → ascending calls ≡ true
    → 1 ≤ waiting 0 calls + waiting 1 calls
    → (x : ℕ) × (m : ℕ) × (find x calls ≡ some m) × (m ≤ 1)
unfolding waiting find ascending above
own_id [] a h = absurd (omega (arith, h))
own_id ((z, k) ∷ calls) a h = elim (Bool-cases (leb k 1)) [
  | inl b ↦ (z, k, ground arith, ground arith)
  | inr b ↦
      let (x, m, f, l) = own_id calls (ground arith) (ground arith) in
      (x, m, ground (arith, find-above z x calls, f), l)
]

-- One more action: the client connects, or it sends a request.
abbrev pub Acts : Impl → Impl → Type 0
Acts s t =
    ((addr : Bytes) × (t.actions ≡ s.actions ++ Action.connects addr ∷ []))
    ⊎ ((req : Request) × (t.actions ≡ s.actions ++ Action.sends req ∷ []))

reset_connection-connects :
    (addr : Bytes) (s : Impl)
    → is_closed s.state ≡ false
    → (reset_connection addr s).actions ≡ s.actions ++ Action.connects addr ∷ []
unfolding reset_connection
reset_connection-connects addr s h = rw (h, reset_connection) refl

failed-Acts :
    (addr : Bytes) (rep : Response) (s : Impl)
    → is_closed s.state ≡ false
    → Acts s (on_ping_failed addr rep s)
failed-Acts addr rep s h = elim (failed-cases addr rep s) [
  | inl e ↦ inl (
    s.address,
    ap (λ (t : Impl). t.actions) e ∙ reset_connection-connects s.address (record s { sid = 0 }) h,
  )
  | inr e ↦ inl (addr, ap (λ (t : Impl). t.actions) e ∙ reset_connection-connects addr s h)
]

-- The ping over a connection that stands.
sent_ping :
    (addr : Bytes) (s : Impl)
    → is_connected s.state ≡ true
    → s.rpc.connected ≡ true
    → (ping addr s).actions
      ≡ (send_all
          (call_in_loop s.rpc ping_call (record no_request { sid = some s.sid; ping = true })).sent
          (record s {
            rpc =
                (call_in_loop s.rpc ping_call
                  (record no_request { sid = some s.sid; ping = true })).client;
          })).actions
unfolding ping
sent_ping addr s a c =
    rw
      (
        a,
        connected-done ping_call (record no_request { sid = some s.sid; ping = true }) s.rpc c,
        ping,
      )
      refl

connected-sent :
    (n : ℕ) (req : Request) (c : Rpc.Client)
    → c.connected ≡ true
    → (call_in_loop c n req).sent ≡ record req { xid = some c.xid } ∷ []
unfolding call_in_loop
connected-sent n req c h = rw h refl

ping-Acts :
    (addr : Bytes) (s : Impl)
    → is_closed s.state ≡ false
    → s.rpc.connected ≡ true
    → Acts s (ping addr s)
ping-Acts addr s h c = elim (Bool-cases (is_connected s.state)) [
  | inr a ↦ rw (unconnected addr s a h) (failed-Acts addr no_response s h)
  | inl a ↦
      let req : Request = record no_request { sid = some s.sid; ping = true } in
      let e = call_in_loop s.rpc ping_call req in
      inr (
        record req { xid = some s.rpc.xid },
        sent_ping addr s a c
            ∙ ap (λ (reqs : List Request). (send_all reqs (record s { rpc = e.client })).actions)
                (connected-sent ping_call req s.rpc c),
      )
]

abbrev late : ℕ → Done
late m = record { call = m; status = Status.timeout (codes "rpc call timeout"); response = none }

late-ping :
    (addr : Bytes) (m : ℕ) (s : Impl)
    → is_closed s.state ≡ false
    → on_ping addr (late m) s ≡ ping addr s
unfolding on_ping
late-ping addr m s h = ground arith

late-register :
    (addr : Bytes) (m : ℕ) (s : Impl)
    → is_closed s.state ≡ false
    → on_register addr (late m) s ≡ reset_connection addr s
unfolding on_register on_refused
late-register addr m s h = ground arith

-- The callback of an own call whose response did not come.
late-Acts :
    (addr : Bytes) (m : ℕ) (s : Impl)
    → m ≤ 1
    → is_closed s.state ≡ false
    → s.rpc.connected ≡ true
    → Acts s (on_done addr (late m) s)
unfolding on_done
late-Acts addr zero s l h c = inl (
  addr,
  ap (λ (t : Impl). t.actions) (late-register addr 0 s h) ∙ reset_connection-connects addr s h,
)
late-Acts addr (suc zero) s l h c = rw (late-ping addr 1 s h) (ping-Acts addr s h c)
late-Acts addr (suc (suc m)) s l h c = absurd (omega (arith, l))

expired :
    (x m : ℕ) (c : Rpc.Client)
    → find x c.pending ≡ some m
    → react (timeout x) c
      ≡ record { client = record c { pending = erase x c.pending }; sent = []; done = late m ∷ [] }
unfolding react on_call_timeout
expired x m c f = ground arith

expires-Acts :
    (addr : Bytes) (x m : ℕ) (s : Impl)
    → find x s.rpc.pending ≡ some m
    → m ≤ 1
    → is_closed s.state ≡ false
    → s.rpc.connected ≡ true
    → Acts s (handle addr (call_expires x) s)
unfolding handle on_rpc on_done_all
expires-Acts addr x m s f l h c =
    rw (expired x m s.rpc f, on_rpc)
      (late-Acts addr m (record s { rpc = record s.rpc { pending = erase x s.rpc.pending } }) l h c)

standing : (s : Impl) → IsOn 1 s → ltb 0 s.timers ≡ false → s.rpc.connected ≡ true
unfolding waiting
standing s v t = elim (Bool-cases s.rpc.connected) [
  | inl h ↦ h
  | inr h ↦ absurd (ground (arith, v.under_way, v.idle h))
]

-- In every state that the client can be in until it is closed, as long as the ids of a connection do
-- not wrap, it goes on without any response: a connection timer is armed, and when it fires the client
-- connects again, or a registration or ping waits, and when it expires the client connects again or
-- sends another request.
pub Reach-moves :
    (s : Impl)
    → Reach s
    → ((can_happen timer_fires s ≡ true)
        × ((addr : Bytes)
            → (handle addr timer_fires s).actions ≡ s.actions ++ Action.connects addr ∷ []))
      ⊎ ((x : ℕ) × (m : ℕ) × (find x s.rpc.pending ≡ some m)
          × (m ≤ 1)
          × ((addr : Bytes) → Acts s (handle addr (call_expires x) s)))
unfolding can_happen handle on_connection_timeout
Reach-moves s r =
    let v = Reach-IsOn s r in
    elim (Bool-cases (ltb 0 s.timers)) [
      | inl t ↦
          inl
            (t, λ addr. reset_connection-connects addr (record s { timers = s.timers - 1 }) v.alive)
      | inr t ↦
          let (x, m, f, l) = own_id s.rpc.pending v.client.sorted (ground (arith, v.under_way)) in
          inr (x, m, f, l, λ addr. expires-Acts addr x m s f l v.alive (standing s v t))
    ]
