-- ===== src/Messages.antt =====
-- proto/rpc.proto: the messages between clients and servers.
use pyxis.Prelude.{ℕ, Bytes, Bool, true, false, [], Option, none, some}
use pyxis.Common.Code.{Error}
use pyxis.Watch.{Event}

-- rpc::CreateRequest, WriteRequest and WatchRequest.
pub record CreateRequest : Type 0 where
  pub path : Bytes
  pub flags : ℕ
  pub content : Bytes

pub record WriteRequest : Type 0 where
  pub path : Bytes
  pub content : Bytes

pub record WatchRequest : Type 0 where
  pub path : Bytes
  pub watch : ℕ
  pub recursive : Bool

-- rpc::Request: every part may be there or not. The timeout of a registration is the 32-bit word of
-- its int32.
pub record Request : Type 0 where
  pub xid : Option ℕ
  pub sid : Option ℕ
  pub register : Option ℕ
  pub unregister : Bool
  pub ping : Bool
  pub create : Option CreateRequest
  pub delete : Option Bytes
  pub write : Option WriteRequest
  pub read : Option Bytes
  pub stat : Option Bytes
  pub watch : Option WatchRequest

abbrev pub no_request : Request
no_request = record {
  xid = none;
  sid = none;
  register = none;
  unregister = false;
  ping = false;
  create = none;
  delete = none;
  write = none;
  read = none;
  stat = none;
  watch = none;
}

-- sid(), which is 0 where the field is not set.
abbrev pub sid_of : Request → ℕ
sid_of r = elim r.sid [ none ↦ 0 | some sid ↦ sid ]

abbrev pub is_some {ℓ} : {A : Type ℓ} → Option A → Bool
is_some none = false
is_some (some a) = true

-- watch(), whose fields have their defaults where it is not set.
abbrev pub watch_of : Request → WatchRequest
watch_of r = elim r.watch [ none ↦ record { path = []; watch = 0; recursive = false } | some w ↦ w ]

-- rpc::Response.
pub record Response : Type 0 where
  pub xid : Option ℕ
  pub err : Option Error
  pub content : Option Bytes
  pub watch : Option Event
  pub sid : Option ℕ
  pub path : Option Bytes

abbrev pub no_response : Response
no_response = record {
  xid = none;
  err = none;
  content = none;
  watch = none;
  sid = none;
  path = none;
}
