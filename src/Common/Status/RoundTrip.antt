-- ===== src/Common/Status/RoundTrip.antt =====
-- A status that crosses the wire as an rpc::Error and is read back by the client.
use pyxis.Prelude.{◌≡◌, ◌≢◌, arith, Bytes}
use pyxis.Common.Code.{Code, ErrorType, Error}
use pyxis.Common.Status.{Status, to_rpc_error, from_rpc_error, ok, internal}

-- What a client reads of a status that the server returned: OK loses its message, and the codes
-- that the protocol lacks become Internal.
abbrev pub received : Code → Bytes → Status
received Code.ok m = ok
received Code.disconnect m = internal m
received Code.timeout m = internal m
received Code.cached m = internal m
received c m = record { code = c; msg = m }

-- Reading back the rpc::Error of a status gives the same code and message for every code that the
-- protocol has, OK without its message, and Internal with the message for Disconnect, Timeout and
-- Cached.
pub from_rpc_error-to_rpc_error :
    (s : Status) → from_rpc_error (to_rpc_error s) ≡ received s.code s.msg
unfolding from_rpc_error to_rpc_error
from_rpc_error-to_rpc_error s = ground arith

-- An rpc::Error other than kNone is the rpc::Error of the status that is read from it.
pub to_rpc_error-from_rpc_error :
    (e : Error) → e.type ≢ ErrorType.no_error → to_rpc_error (from_rpc_error e) ≡ e
unfolding from_rpc_error to_rpc_error
to_rpc_error-from_rpc_error e h = ground arith
