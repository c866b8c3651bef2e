-- ===== src/Rpc/Server.antt =====
-- rpc/server.cc and rpc/session.cc: the connections of a server and the responses that it sends, and
-- the way of one call from a client to a server and back.
use pyxis.Prelude.{
  ℕ, ◌+◌, ◌%◌, ◌^◌, ◌<◌, true, List, [], ◌∷◌, Option, none, some, ◌≡◌, arith, if◌then◌else◌,
}
use pyxis.Common.Status
use pyxis.Maps.{find, assign, erase, insert_new, find-assign, set_insert, set_erase, member}
use pyxis.Maps.Keys.{nat_key}
use pyxis.Messages.{Request, Response}
use pyxis.Rpc.{Client, call_in_loop, on_rpc_message}
use pyxis.Rpc.Counts.{below, find-below}
use pyxis.Rpc.Once.{IsClient}

-- Server: the next id, and the ids of the sessions that are there.
pub record Server : Type 0 where
  pub sid : ℕ
  pub sessions : List ℕ

abbrev pub new_server : Server
new_server = record { sid = 0; sessions = [] }

-- onConnection of a new connection, with the id that becomes its context.
unfoldable pub on_connected : Server → Server × ℕ
on_connected s =
    (record { sid = (s.sid + 1) % 2 ^ 64; sessions = set_insert s.sid s.sessions }, s.sid)

-- onConnection of one that is lost.
unfoldable pub on_disconnected : ℕ → Server → Server
on_disconnected id s = record s { sessions = set_erase id s.sessions }

-- Session::onRpcDone, which the event of a request calls when it goes: the response that is sent, if
-- the session is still there.
unfoldable pub on_rpc_done : Server → ℕ → Request → Response → Option Response
on_rpc_done s id req rep =
    if member id s.sessions
    then some (record rep { xid = some (elim req.xid [ none ↦ 0 | some x ↦ x ]) })
    else none

erase-assign :
    (x m : ℕ) (calls : List (ℕ × ℕ)) → below x calls ≡ true → erase x (assign x m calls) ≡ calls
unfolding below assign erase
erase-assign x m [] h = ground arith
erase-assign x m ((z, k) ∷ calls) h = ground (arith, erase-assign x m calls)

-- A call over a connection that stands, on a client whose ids have not wrapped, sends one request;
-- the response that the session sends for it, as long as it is there, ends this call with the status
-- OK and that response, and leaves the calls that waited before as they were.
pub on_rpc_done-ends :
    (c : Client) (n : ℕ) (req : Request) (rep : Response) (s : Server) (id : ℕ)
    → IsClient c
    → c.connected ≡ true
    → c.xid + 1 < 2 ^ 64
    → member id s.sessions ≡ true
    → (sent : Request) × (answer : Response) × ((call_in_loop c n req).sent ≡ sent ∷ [])
      × (on_rpc_done s id sent rep ≡ some answer)
      × (on_rpc_message answer (call_in_loop c n req).client ≡ record {
        client = record c { xid = c.xid + 1 };
        sent = [];
        done = record { call = n; status = Status.ok; response = some answer } ∷ [];
      })
unfolding call_in_loop on_rpc_done on_rpc_message insert_new
on_rpc_done-ends c n req rep s id v up room there =
    let absent : find c.xid c.pending ≡ none = find-below c.xid c.pending v.given in
    (
      record req { xid = some c.xid },
      record rep { xid = some c.xid },
      ground arith,
      ground arith,
      ground (
        arith,
        absent,
        find-assign c.xid c.xid n c.pending,
        erase-assign c.xid n c.pending v.given,
      ),
    )
