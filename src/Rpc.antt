-- ===== src/Rpc.antt =====
-- rpc/client.h and rpc/client.cc: the calls that wait for a response, by the ids they were sent with.
pub mod Counts
pub mod Once
pub mod Server
use pyxis.Prelude.{
  ℕ, ◌+◌, ◌%◌, ◌^◌, codes, Bool, true, false, List, [], ◌∷◌, ◌++◌, Option, none, some,
  if◌then◌else◌,
}
use pyxis.Maps.{find, erase, insert_new}
use pyxis.Maps.Keys.{nat_key}
use pyxis.Common.Status
use pyxis.Common.Status.{Status}
use pyxis.Messages.{Request, Response, no_response}

-- Client, without its socket and its event loop. A call (the pointers and the callback of RpcCall)
-- is named by a number.
pub record Client : Type 0 where
  pub closing : Bool
  pub connected : Bool
  pub xid : ℕ
  pub pending : List (ℕ × ℕ)

-- The constructor.
abbrev pub new_client : Client
new_client = record { closing = false; connected = false; xid = 0; pending = [] }

-- Done() of a call, with what was put into its status and, where there is one, its response.
pub record Done : Type 0 where
  pub call : ℕ
  pub status : Status
  pub response : Option Response

-- What a handler did: the requests it sent and the calls whose callbacks it ran, in order.
pub record Effect : Type 0 where
  pub client : Client
  pub sent : List Request
  pub done : List Done

abbrev pub quiet : Client → Effect
quiet c = record { client = c; sent = []; done = [] }

-- callInLoop.
unfoldable pub call_in_loop : Client → ℕ → Request → Effect
call_in_loop c call req =
    if c.connected
    then record {
      client = record c { xid = (c.xid + 1) % 2 ^ 64; pending = insert_new c.xid call c.pending };
      sent = record req { xid = some c.xid } ∷ [];
      done = [];
    }
    else record {
      client = c;
      sent = [];
      done =
          record {
            call = call;
            status = Status.disconnect (codes "not connected");
            response = none;
          }
          ∷ [];
    }

unfoldable pub reset_all : List (ℕ × ℕ) → List Done
reset_all [] = []
reset_all ((x, call) ∷ calls) =
    record { call = call; status = Status.disconnect (codes "rpc call reset"); response = none }
    ∷ reset_all calls

-- clearCalls, where its CHECK that the connection is lost holds. The callbacks run behind the swap
-- that empties the map.
unfoldable pub clear_calls : Client → Effect
unfolding reset_all
clear_calls c = record { client = record c { pending = [] }; sent = []; done = reset_all c.pending }

-- Close.
unfoldable pub close : Client → Effect
unfolding clear_calls
close c = clear_calls (record c { closing = true; connected = false })

-- onConnection, with whether it calls connectionCallback_(true).
unfoldable pub on_connection : Bool → Client → Effect × Bool
unfolding clear_calls
on_connection up c =
    if up
    then (quiet (record c { connected = true }), true)
    else (clear_calls (record c { connected = false }), false)

-- onRpcMessage.
unfoldable pub on_rpc_message : Response → Client → Effect
on_rpc_message rep c =
    let x : ℕ = elim rep.xid [ none ↦ 0 | some x ↦ x ] in
    elim (find x c.pending) [
      | none ↦ quiet c
      | some call ↦ record {
        client = record c { pending = erase x c.pending };
        sent = [];
        done = record { call = call; status = Status.ok; response = some rep } ∷ [];
      }
    ]

-- onCallTimeout.
unfoldable pub on_call_timeout : ℕ → Client → Effect
on_call_timeout x c = elim (find x c.pending) [
  | none ↦ quiet c
  | some call ↦ record {
    client = record c { pending = erase x c.pending };
    sent = [];
    done =
        record { call = call; status = Status.timeout (codes "rpc call timeout"); response = none }
        ∷ [];
  }
]
