-- ===== src/Common/Code.antt =====
-- The result codes: Status::Code of common/status.h, and rpc::ErrorType of proto/rpc.proto.
use pyxis.Prelude.{Bytes}

-- Status::Code.
pub data Code : Type 0 where
  ok not_leader not_found session_expired invalid_argument internal again exist disconnect : Code
  timeout cached : Code

-- rpc::ErrorType.
pub data ErrorType : Type 0 where
  no_error not_leader not_found session_expired invalid_argument again internal exist : ErrorType

-- rpc::Error.
pub record Error : Type 0 where
  pub type : ErrorType
  pub payload : Bytes
