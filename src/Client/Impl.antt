-- ===== src/Client/Impl.antt =====
-- client/client_impl.cc: the state of ClientImpl and the callbacks of its loop thread. A connection
-- that is given up is kept in `old` until the loop destroys it. A call of the rpc client runs at
-- once: the loop runs the calls it was given before it destroys their client.
use pyxis.Prelude.{
  ℕ, ◌+◌, Bytes, Bool, true, false, not, ◌&&◌, List, [], ◌∷◌, ◌++◌, Option, none, some,
  if◌then◌else◌, ◌==◌,
}
use pyxis.Common.Code.{Error, ErrorType}
use pyxis.Common.Status.{Status, is_ok, is_timeout, from_rpc_error}
use pyxis.Messages.{Request, Response, no_request, no_response, is_some}
use pyxis.Watch.{Event}
use pyxis.Client.Watches.{Watches, Notice}
use pyxis.Client.Watches
use pyxis.Rpc
use pyxis.Rpc.{Effect, Done, new_client, call_in_loop}

-- ClientImpl::State.
pub data State : Type 0 where
  looking : State
  connected : State
  closed : State

abbrev pub is_closed : State → Bool
is_closed State.closed = true
is_closed _ = false

abbrev pub is_connected : State → Bool
is_connected State.connected = true
is_connected _ = false

-- The watch events of the connection itself.
abbrev pub connected_event : Event
connected_event = record { node = []; type = 16 }

-- The numbers of the client's own calls; those of its users are 2 and above.
abbrev pub register_call : ℕ
register_call = 0

abbrev pub ping_call : ℕ
ping_call = 1

-- What the client did: requests sent, addresses connected to, calls of users that ended, callbacks,
-- and threads that register the watchers again.
pub data Action : Type 0 where
  sends : Request → Action
  connects : Bytes → Action
  ends : ℕ → Status → Option Response → Action
  notifies : Notice → Action
  registers_watchers : Action

-- ClientImpl. `address` and `rpc` are client_, `timers` counts the connection timers that are armed.
pub record Impl : Type 0 where
  pub state : State
  pub sid : ℕ
  pub timeout : ℕ
  pub watches : Watches
  pub address : Bytes
  pub rpc : Rpc.Client
  pub timers : ℕ
  pub old : List Rpc.Client
  pub actions : List Action

abbrev pub act : Action → Impl → Impl
act a s = record s { actions = s.actions ++ a ∷ [] }

-- rep->err(), which is an empty kNone where it is not set.
abbrev pub err_of : Response → Error
err_of rep = elim rep.err [ none ↦ record { type = ErrorType.no_error; payload = [] } | some e ↦ e ]

-- The response that a call leaves, which stays as it was where none came.
abbrev pub reply_of : Done → Response
reply_of d = elim d.response [ none ↦ no_response | some r ↦ r ]

-- resetConnection.
unfoldable pub reset_connection : Bytes → Impl → Impl
reset_connection addr s =
    if is_closed s.state
    then s
    else act (connects addr) (record s {
      old = s.old ++ s.rpc ∷ [];
      rpc = new_client;
      address = addr;
      timers = s.timers + 1;
    })

-- wm_.Triger.
unfoldable pub triger : Bytes → Event → Impl → Impl
triger path e s =
    let (m, n) = Watches.triger s.watches path e in act (notifies n) (record s { watches = m })

-- The requests that an effect of the rpc client sent.
abbrev pub send_all : List Request → Impl → Impl
send_all [] s = s
send_all (req ∷ reqs) s = send_all reqs (act (sends req) s)

-- onPing, behind the branch for a good response and that for a timeout.
unfoldable pub on_ping_failed : Bytes → Response → Impl → Impl
unfolding reset_connection
on_ping_failed addr rep s = elim (err_of rep).type [
  | ErrorType.session_expired ↦ reset_connection s.address (record s { sid = 0 })
  | _ ↦ reset_connection addr s
]

-- ping, through callInLoop. A connection that is not there fails the call at once.
unfoldable pub ping : Bytes → Impl → Impl
unfolding call_in_loop on_ping_failed
ping addr s =
    if not (is_connected s.state)
    then (if is_closed s.state then s else on_ping_failed addr no_response s)
    else let e =
        call_in_loop s.rpc ping_call (record no_request { sid = some s.sid; ping = true }) in
      let t = send_all e.sent (record s { rpc = e.client }) in
      elim e.done [ [] ↦ t | (d ∷ ds) ↦ on_ping_failed addr no_response t ]

-- The watch event that a good ping brings.
unfoldable pub see : Response → Impl → Impl
unfolding triger
see rep s = elim rep.watch [
  | none ↦ s
  | some w ↦ triger (elim rep.path [ none ↦ [] | some p ↦ p ]) w s
]

-- onPing, with the random address that it may pick.
unfoldable pub on_ping : Bytes → Done → Impl → Impl
unfolding see ping on_ping_failed
on_ping addr d s =
    let rep = reply_of d in
    if is_closed s.state
    then s
    else if is_ok d.status && not (is_some rep.err)
    then ping addr (see rep s)
    else if is_timeout d.status
    then ping addr s
    else on_ping_failed addr rep s

-- register_. A connection that is not there fails the call at once, and onRegister takes another.
unfoldable pub register : Bytes → Impl → Impl
unfolding call_in_loop reset_connection
register addr s =
    let e = call_in_loop s.rpc register_call (record no_request {
      sid = if s.sid == 0 then none else some s.sid;
      register = some s.timeout;
    }) in
    let t = send_all e.sent (record s { rpc = e.client }) in
    elim e.done [ [] ↦ t | (d ∷ ds) ↦ reset_connection addr t ]

-- onRegister, where the registration succeeded.
unfoldable pub registered : Bytes → ℕ → Impl → Impl
unfolding triger ping
registered addr sid s =
    act registers_watchers
      (ping addr (triger [] connected_event (record s { sid = sid; state = State.connected })))

-- onRegister, where it did not. The CHECK that a kNotLeader error has data is not in the model, where
-- an Error has a text that may be empty.
unfoldable pub on_refused : Bytes → Error → Impl → Impl
unfolding reset_connection
on_refused addr err s = elim err.type [
  | ErrorType.not_leader ↦ reset_connection err.payload s
  | ErrorType.session_expired ↦ reset_connection s.address (record s { sid = 0 })
  | _ ↦ reset_connection addr s
]

-- onRegister, with the random address that it may pick.
unfoldable pub on_register : Bytes → Done → Impl → Impl
unfolding registered on_refused
on_register addr d s =
    let rep = reply_of d in
    if is_closed s.state
    then s
    else if is_ok d.status && not (is_some rep.err)
    then registered addr (elim rep.sid [ none ↦ 0 | some sid ↦ sid ]) s
    else on_refused addr (err_of rep) s

-- The callback of a call.
unfoldable pub on_done : Bytes → Done → Impl → Impl
unfolding on_register on_ping
on_done addr d s =
    if d.call == register_call
    then on_register addr d s
    else if d.call == ping_call
    then on_ping addr d s
    else act (ends d.call d.status d.response) s

unfoldable pub on_done_all : Bytes → List Done → Impl → Impl
unfolding on_done
on_done_all addr [] s = s
on_done_all addr (d ∷ ds) s = on_done_all addr ds (on_done addr d s)

-- The end of call: the status that a user gets.
unfoldable pub call_status : Status → Response → Status
unfolding from_rpc_error
call_status st rep = if is_ok st then from_rpc_error (err_of rep) else st
