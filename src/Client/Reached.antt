-- ===== src/Client/Reached.antt =====
-- client/client_impl.cc: the states that the client can be in until it is closed.
use pyxis.Prelude.{
  ℕ, ◌+◌, ◌^◌, ◌<◌, Bytes, true, false, ◌≡◌, refl, arith, inl, inr, Bool-cases, ◌⊎◌,
}
use pyxis.Maps.Keys.{nat_key}
use pyxis.Rpc.Counts.{below, waiting}
use pyxis.Maps.Ascending.{ascending}
use pyxis.Client.Impl.{Impl, reset_connection, is_closed}
use pyxis.Client.Loop.{Happening, handle, can_happen, start, new_impl}
use pyxis.Client.Quiet.{IsOn, own, own_all}
use pyxis.Client.Live.{handle-IsOn}
use pyxis.Client.Watches.{Callback}

-- The states behind Start, over any order of events, as long as the ids of a connection do not wrap.
pub data Reach : Impl → Type 0 where
  started :
      (addr : Bytes) (sid limit : ℕ) (default_done : Callback)
      → Reach (start addr (new_impl sid limit default_done))
  happened :
      (addr : Bytes) (h : Happening) (s : Impl)
      → Reach s
      → can_happen h s ≡ true
      → s.rpc.xid + 2 < 2 ^ 64
      → Reach (handle addr h s)

pub Reach-IsOn : (s : Impl) → Reach s → IsOn 1 s
unfolding start reset_connection own_all waiting ascending below
Reach-IsOn s (started addr sid limit default_done) = record {
  alive = refl;
  client = record { sorted = refl; given = refl };
  under_way = refl;
  idle = λ h. refl;
  past = refl;
}
Reach-IsOn s (happened addr h t r can room) = handle-IsOn addr h t can room (Reach-IsOn t r)

-- In every state that the client can be in until it is closed, as long as the ids of a connection do
-- not wrap, it is open and exactly one of its own tasks is under way: an attempt to connect, with its timer armed, or a registration or a ping that
-- waits for its response on a connection that stands. On the connections that it gave up, none of
-- its own calls waits.
pub Reach-one :
    (s : Impl)
    → Reach s
    → (is_closed s.state ≡ false)
      × ((s.timers ≡ 1) × (own s.rpc ≡ 0)
          ⊎ (s.timers ≡ 0) × (s.rpc.connected ≡ true) × (own s.rpc ≡ 1))
      × (own_all s.old ≡ 0)
unfolding waiting
Reach-one s r =
    let v = Reach-IsOn s r in
    let kind : ((s.timers ≡ 1) × (own s.rpc ≡ 0))
        ⊎ ((s.timers ≡ 0) × (s.rpc.connected ≡ true) × (own s.rpc ≡ 1)) =
      elim (Bool-cases s.rpc.connected) [
        | inl h ↦ ground (arith, v.under_way)
        | inr h ↦ inl (ground (arith, v.under_way, v.idle h))
      ] in
    (v.alive, kind, v.past)
