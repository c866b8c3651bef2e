-- ===== src/Client/Callbacks.antt =====
-- onPing and onRegister go on with the client's own work.
use pyxis.Prelude.{
  ℕ, ◌+◌, ◌^◌, ◌<◌, Bytes, false, not, ◌&&◌, [], none, some, ◌≡◌, refl, arith, inl, inr, Bool-cases,
  Option-cases, ◌⊎◌,
}
use pyxis.Common.Code.{Error, ErrorType}
use pyxis.Common.Status.{is_ok}
use pyxis.Messages.{Response, is_some}
use pyxis.Rpc.{Done}
use pyxis.Client.Impl.{
  Impl, State, is_closed, reset_connection, on_ping, on_ping_failed, ping, on_register, on_refused,
  triger, reply_of, err_of, see, registered, connected_event,
}
use pyxis.Client.Quiet.{
  IsOn, same, triger-IsOn, reset_connection-IsOn, on_ping_failed-IsOn, ping-IsOn,
}

see-IsOn : (n : ℕ) (rep : Response) (s : Impl) → IsOn n s → IsOn n (see rep s)
unfolding see
see-IsOn n rep s v = elim (Option-cases rep.watch) [
  | inl h ↦ rw (h, see) v
  | inr (w, h) ↦ rw (h, see) (triger-IsOn n _ w s v)
]

see-rpc : (rep : Response) (s : Impl) → (see rep s).rpc ≡ s.rpc
unfolding see triger
see-rpc rep s = ground arith

on_ping-cases :
    (addr : Bytes) (d : Done) (s : Impl)
    → is_closed s.state ≡ false
    → (on_ping addr d s ≡ ping addr (see (reply_of d) s))
      ⊎ (on_ping addr d s ≡ ping addr s)
      ⊎ (on_ping addr d s ≡ on_ping_failed addr (reply_of d) s)
unfolding on_ping
on_ping-cases addr d s h = ground arith

-- onPing of a ping that was under way.
pub on_ping-IsOn :
    (addr : Bytes) (d : Done) (s : Impl)
    → IsOn 0 s
    → s.rpc.xid + 1 < 2 ^ 64
    → IsOn 1 (on_ping addr d s)
on_ping-IsOn addr d s v room = elim (on_ping-cases addr d s v.alive) [
  | inl e ↦ rw e (
      ping-IsOn addr (see (reply_of d) s) (see-IsOn 0 (reply_of d) s v)
        (rw (see-rpc (reply_of d) s) room))
  | inr (inl e) ↦ rw e (ping-IsOn addr s v room)
  | inr (inr e) ↦ rw e (on_ping_failed-IsOn addr (reply_of d) s v)
]

registered-IsOn :
    (addr : Bytes) (sid : ℕ) (s : Impl)
    → IsOn 0 s
    → s.rpc.xid + 1 < 2 ^ 64
    → IsOn 1 (registered addr sid s)
unfolding registered triger
registered-IsOn addr sid s v room =
    same 1 _ _
      (ping-IsOn addr (triger [] connected_event (record s { sid = sid; state = State.connected }))
        (triger-IsOn 0 [] connected_event (record s { sid = sid; state = State.connected })
          (record {
            alive = refl;
            client = v.client;
            under_way = v.under_way;
            idle = v.idle;
            past = v.past;
          }))
        room)
      refl refl refl refl

-- A refused registration takes another connection.
refused :
    (addr : Bytes) (err : Error) (s : Impl)
    → (a : Bytes) × ((on_refused addr err s ≡ reset_connection s.address (record s { sid = 0 }))
        ⊎ (on_refused addr err s ≡ reset_connection a s))
unfolding on_refused
refused addr err s = (elim err.type [ ErrorType.not_leader ↦ err.payload | _ ↦ addr ], ground arith)

on_register-cases :
    (addr : Bytes) (d : Done) (s : Impl)
    → is_closed s.state ≡ false
    → ((sid : ℕ) × (on_register addr d s ≡ registered addr sid s))
      ⊎ (on_register addr d s ≡ reset_connection s.address (record s { sid = 0 }))
      ⊎ ((a : Bytes) × (on_register addr d s ≡ reset_connection a s))
unfolding on_register
on_register-cases addr d s h =
    elim (Bool-cases (is_ok d.status && not (is_some (reply_of d).err))) [
      | inl b ↦ inl (elim (reply_of d).sid [ none ↦ 0 | some sid ↦ sid ], ground arith)
      | inr b ↦
          let (a, e) = refused addr (err_of (reply_of d)) s in
          elim e [ inl f ↦ inr (inl (ground arith)) | inr f ↦ inr (inr (a, ground arith)) ]
    ]

-- onRegister of a registration that was under way.
pub on_register-IsOn :
    (addr : Bytes) (d : Done) (s : Impl)
    → IsOn 0 s
    → s.rpc.xid + 1 < 2 ^ 64
    → IsOn 1 (on_register addr d s)
on_register-IsOn addr d s v room = elim (on_register-cases addr d s v.alive) [
  | inl (sid, e) ↦ rw e (registered-IsOn addr sid s v room)
  | inr (inl e) ↦ rw e (
      reset_connection-IsOn s.address (record s { sid = 0 })
        (same 0 s (record s { sid = 0 }) v refl refl refl refl))
  | inr (inr (a, e)) ↦ rw e (reset_connection-IsOn a s v)
]
