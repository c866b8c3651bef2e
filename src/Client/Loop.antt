-- ===== src/Client/Loop.antt =====
-- client/client_impl.cc: what happens to ClientImpl on its loop thread. What the loop has already polled
-- for a connection that is given up in the same round is not among it.
use pyxis.Prelude.{
  ℕ, ◌-◌, Bytes, codes, Bool, true, false, not, [], ◌∷◌, none, some, if◌then◌else◌, ltb, leb,
}
use pyxis.Common.Status
use pyxis.Common.Status.{Status}
use pyxis.Messages.{Request, Response}
use pyxis.Rpc.{new_client}
use pyxis.Rpc.Counts.{Input, react, message, timeout, connection, closing, call}
use pyxis.Client.Impl.{
  Impl, State, ends, is_closed, is_connected, act, reset_connection, register, send_all,
  on_done_all,
}
use pyxis.Client.Watches.{Callback}

-- The constructor.
abbrev pub new_impl : ℕ → ℕ → Callback → Impl
new_impl sid limit default_done = record {
  state = State.closed;
  sid = sid;
  timeout = limit;
  watches = record { default_done = default_done; watchers = [] };
  address = [];
  rpc = new_client;
  timers = 0;
  old = [];
  actions = [];
}

-- Start, without the cache; its random address is an argument.
unfoldable pub start : Bytes → Impl → Impl
unfolding reset_connection
start addr s = reset_connection addr (record s { state = State.looking })

-- The rpc client takes an input, and the callbacks run.
unfoldable pub on_rpc : Bytes → Input → Impl → Impl
unfolding react on_done_all
on_rpc addr i s =
    let e = react i s.rpc in on_done_all addr e.done (send_all e.sent (record s { rpc = e.client }))

-- onConnection(true), which the rpc client calls when it is connected.
unfoldable pub on_connected : Bytes → Impl → Impl
unfolding on_rpc register
on_connected addr s =
    let t = on_rpc addr (connection true) s in register addr (record t { timers = t.timers - 1 })

-- onConnectionTimeout, for a timer that has fired.
unfoldable pub on_connection_timeout : Bytes → Impl → Impl
unfolding reset_connection
on_connection_timeout addr s = reset_connection addr (record s { timers = s.timers - 1 })

-- The loop destroys the oldest connection that was given up.
unfoldable pub drop_old : Bytes → Impl → Impl
unfolding react on_done_all
drop_old addr s = elim s.old [
  | [] ↦ s
  | (c ∷ cs) ↦ on_done_all addr (react closing c).done (record s { old = cs })
]

-- call and callInLoop, for the call of a user.
unfoldable pub user_call : Bytes → ℕ → Request → Impl → Impl
unfolding on_rpc
user_call addr n req s =
    if is_closed s.state
    then act (ends n (Status.disconnect (codes "closed")) none) s
    else if not (is_connected s.state)
    then act (ends n (Status.disconnect (codes "not connected")) none) s
    else on_rpc addr (call n (record req { sid = some s.sid })) s

-- An event on the loop thread.
pub data Happening : Type 0 where
  connects : Happening
  disconnects : Happening
  receives : Response → Happening
  call_expires : ℕ → Happening
  timer_fires : Happening
  drops : Happening
  user : ℕ → Request → Happening

unfoldable pub handle : Bytes → Happening → Impl → Impl
unfolding on_connected on_rpc on_connection_timeout drop_old user_call
handle addr connects s = on_connected addr s
handle addr disconnects s = on_rpc addr (connection false) s
handle addr (receives rep) s = on_rpc addr (message rep) s
handle addr (call_expires x) s = on_rpc addr (timeout x) s
handle addr timer_fires s = on_connection_timeout addr s
handle addr drops s = drop_old addr s
handle addr (user n req) s = user_call addr n req s

-- What can happen when: a connection is made once and then lost, messages come over a connection, and
-- timers fire that are armed. The ids of the calls of users are 2 and above.
unfoldable pub can_happen : Happening → Impl → Bool
can_happen connects s = not s.rpc.connected
can_happen disconnects s = s.rpc.connected
can_happen (receives rep) s = s.rpc.connected
can_happen timer_fires s = ltb 0 s.timers
can_happen (user n req) s = leb 2 n
can_happen _ s = true
