-- ===== src/Common/Status.antt =====
-- common/status.h and common/status.cc.
pub mod RoundTrip
use pyxis.Prelude.{Bytes, codes, Bool, true, false, ◌++◌, []}
use pyxis.Common.Code.{Code, ErrorType, Error}

pub record Status : Type 0 where
  pub code : Code
  pub msg : Bytes

-- Status::OK.
abbrev pub ok : Status
ok = record { code = Code.ok; msg = [] }

abbrev pub not_leader : Bytes → Status
not_leader m = record { code = Code.not_leader; msg = m }

abbrev pub not_found : Bytes → Status
not_found m = record { code = Code.not_found; msg = m }

abbrev pub internal : Bytes → Status
internal m = record { code = Code.internal; msg = m }

abbrev pub session_expired : Bytes → Status
session_expired m = record { code = Code.session_expired; msg = m }

abbrev pub invalid_argument : Bytes → Status
invalid_argument m = record { code = Code.invalid_argument; msg = m }

abbrev pub again : Bytes → Status
again m = record { code = Code.again; msg = m }

abbrev pub exist : Bytes → Status
exist m = record { code = Code.exist; msg = m }

abbrev pub disconnect : Bytes → Status
disconnect m = record { code = Code.disconnect; msg = m }

abbrev pub timeout : Bytes → Status
timeout m = record { code = Code.timeout; msg = m }

abbrev pub cached : Bytes → Status
cached m = record { code = Code.cached; msg = m }

abbrev pub is_ok_code : Code → Bool
is_ok_code Code.ok = true
is_ok_code _ = false

-- Status::is_ok.
abbrev pub is_ok : Status → Bool
is_ok s = is_ok_code s.code

abbrev pub is_not_found_code : Code → Bool
is_not_found_code Code.not_found = true
is_not_found_code _ = false

-- Status::is_not_found.
abbrev pub is_not_found : Status → Bool
is_not_found s = is_not_found_code s.code

abbrev pub is_invalid_argument_code : Code → Bool
is_invalid_argument_code Code.invalid_argument = true
is_invalid_argument_code _ = false

-- Status::is_invalid_argument.
abbrev pub is_invalid_argument : Status → Bool
is_invalid_argument s = is_invalid_argument_code s.code

abbrev pub is_disconnect_code : Code → Bool
is_disconnect_code Code.disconnect = true
is_disconnect_code _ = false

-- Status::is_disconnect.
abbrev pub is_disconnect : Status → Bool
is_disconnect s = is_disconnect_code s.code

abbrev pub is_timeout_code : Code → Bool
is_timeout_code Code.timeout = true
is_timeout_code _ = false

-- Status::is_timeout.
abbrev pub is_timeout : Status → Bool
is_timeout s = is_timeout_code s.code

prefix : Code → Bytes
prefix Code.ok = []
prefix Code.not_leader = codes "NotLeader:"
prefix Code.not_found = codes "NotFound:"
prefix Code.internal = codes "Internal:"
prefix Code.session_expired = codes "SessionExpired:"
prefix Code.invalid_argument = codes "InvalidArgument:"
prefix Code.again = codes "Again:"
prefix Code.exist = codes "Exist:"
prefix Code.disconnect = codes "Disconnect:"
prefix Code.timeout = codes "Timeout:"
prefix Code.cached = codes "Cached:"

with_prefix : Code → Bytes → Bytes
unfolding prefix
with_prefix Code.ok m = []
with_prefix c m = prefix c ++ m

-- Status::ToString.
unfoldable pub to_string : Status → Bytes
unfolding with_prefix
to_string s = with_prefix s.code s.msg

error_type : Code → ErrorType
error_type Code.ok = ErrorType.no_error
error_type Code.not_leader = ErrorType.not_leader
error_type Code.not_found = ErrorType.not_found
error_type Code.session_expired = ErrorType.session_expired
error_type Code.invalid_argument = ErrorType.invalid_argument
error_type Code.again = ErrorType.again
error_type Code.exist = ErrorType.exist
error_type _ = ErrorType.internal

-- Status::ToRpcError.
unfoldable pub to_rpc_error : Status → Error
unfolding error_type
to_rpc_error s = record { type = error_type s.code; payload = s.msg }

of_type : ErrorType → Bytes → Status
of_type ErrorType.no_error m = ok
of_type ErrorType.not_found m = not_found m
of_type ErrorType.not_leader m = not_leader m
of_type ErrorType.session_expired m = session_expired m
of_type ErrorType.invalid_argument m = invalid_argument m
of_type ErrorType.again m = again m
of_type ErrorType.exist m = exist m
of_type ErrorType.internal m = internal m

-- Status::FromRpcError.
unfoldable pub from_rpc_error : Error → Status
unfolding of_type
from_rpc_error e = of_type e.type e.payload
