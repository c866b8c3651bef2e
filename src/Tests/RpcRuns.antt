-- ===== src/Tests/RpcRuns.antt =====
-- Runs of the rpc client and of a channel.
use pyxis.Prelude.{ℕ, ◌+◌, true, false, List, [], ◌∷◌, some, ◌≡◌, ◌≢◌, ◌↔◌, refl, arith, length}
use pyxis.Maps.{member, set_insert, find, assign, erase, insert_new}
use pyxis.Maps.Ascending.{ascending, above}
use pyxis.Messages.{no_request, no_response, Request, Response}
use pyxis.Rpc.{
  new_client, call_in_loop, on_connection, on_rpc_message, on_call_timeout, close, clear_calls,
  reset_all,
}
use pyxis.Rpc.Counts.{
  Input, call, message, timeout, connection, run, react, made, waiting, ended, below,
}
use pyxis.Rpc.Server
use pyxis.Rpc
use pyxis.Common.Status
use pyxis.Rpc.Once.{IsClient, run_lem}
use pyxis.Channel.{new_channel, Channel, Outcome, put, take, returned}
use pyxis.Channel
use pyxis.Channel.Fifo.{
  Log, Reach, start, here, next, puts, takes, IsFifo, Reach-IsFifo, Reach-takes,
}

-- A call that a response ends, one that a timeout ends, and one that the lost connection ends; the late
-- response to the second finds nothing.
abbrev inputs : List Input
inputs =
    connection true
    ∷ call 5 no_request
    ∷ call 6 no_request
    ∷ call 7 no_request
    ∷ message (record no_response { xid = some 0 })
    ∷ timeout 1
    ∷ message (record no_response { xid = some 1 })
    ∷ []

new_client-IsClient : IsClient new_client
unfolding ascending below
new_client-IsClient = record { sorted = refl; given = refl }

ends_three :
    (ended 5 (run inputs new_client).1 ≡ 1)
    × (ended 6 (run inputs new_client).1 ≡ 1)
    × (waiting 7 (run inputs new_client).0.pending ≡ 1)
unfolding run react made waiting ended call_in_loop on_connection on_rpc_message on_call_timeout
    close clear_calls reset_all find assign erase insert_new
ends_three = (refl, refl, refl)

run_lem_example :
    IsClient (run inputs new_client).0
    × ((n : ℕ)
        → waiting n new_client.pending + made n inputs
          ≡ waiting n (run inputs new_client).0.pending + ended n (run inputs new_client).1)
run_lem_example = run_lem inputs new_client new_client-IsClient (omega arith)

-- Two values go into a channel of size 2, and one comes out.
abbrev two_in : Log ℕ
two_in = record {
  channel = record { size = 2; queue = 8 ∷ 9 ∷ []; count = 2; closed = false };
  accepted = 8 ∷ 9 ∷ [];
  taken = [];
}

abbrev one_out : Log ℕ
one_out = record {
  channel = record { size = 2; queue = 9 ∷ []; count = 1; closed = false };
  accepted = 8 ∷ 9 ∷ [];
  taken = 8 ∷ [];
}

one_out-Reach : Reach ℕ (start ℕ 2) one_out
unfolding put Channel.resume_put take Channel.take_front
one_out-Reach = next (next (next here (puts 8 _ refl)) (puts 9 _ refl)) (takes 8 _ refl)

two_in-Reach : Reach ℕ (start ℕ 2) two_in
unfolding put Channel.resume_put
two_in-Reach = next (next here (puts 8 _ refl)) (puts 9 _ refl)

Reach-IsFifo_example : IsFifo ℕ one_out
Reach-IsFifo_example = Reach-IsFifo ℕ 2 one_out one_out-Reach

Reach-takes_example :
    ((take two_in.channel ≡ Channel.waiting)
      ↔ ((length two_in.channel.queue ≡ 0) × (two_in.channel.closed ≡ false)))
    × (take two_in.channel ≢ Channel.failed)
    × ((x : ℕ) (q : List ℕ)
        → two_in.channel.queue ≡ x ∷ q
        → (c : Channel ℕ) × (take two_in.channel ≡ Channel.returned (some x) c) × (c.queue ≡ q))
Reach-takes_example = Reach-takes ℕ 2 two_in two_in-Reach

-- A server with one connection, and a client with a call that waits.
abbrev server : Server.Server
server = (Server.on_connected Server.new_server).0

abbrev waits : Rpc.Client
waits = record { closing = false; connected = true; xid = 4; pending = (3, 6) ∷ [] }

waits-IsClient : IsClient waits
unfolding ascending above below
waits-IsClient = record { sorted = refl; given = refl }

on_rpc_done-ends_example :
    (sent : Request) × (answer : Response) × ((call_in_loop waits 5 no_request).sent ≡ sent ∷ [])
    × (Server.on_rpc_done server 0 sent no_response ≡ some answer)
    × (on_rpc_message answer (call_in_loop waits 5 no_request).client ≡ record {
      client = record waits { xid = 5 };
      sent = [];
      done = record { call = 5; status = Status.ok; response = some answer } ∷ [];
    })
unfolding Server.on_connected member set_insert
on_rpc_done-ends_example =
    Server.on_rpc_done-ends waits 5 no_request no_response server 0 waits-IsClient refl
      (omega arith) refl
