-- ===== src/Db.antt =====
-- What the store calls and does not implement: leveldb's DB class, which ProcDB implements as
-- well, the protobuf encodings of store::Node and store::Session, and toft's string functions.
pub mod Laws
use pyxis.Prelude.{ℕ, Bytes, Bool, List, Option, ◌≡◌, ◌⊎◌, inl, inr, refl}
use pyxis.Node.{Node}

-- The leveldb::Status of a write; a failure carries its ToString().
pub data Reply : Type 0 where
  done : Reply
  failed : Bytes → Reply

pub Reply-cases : (r : Reply) → (r ≡ Reply.done) ⊎ ((e : Bytes) × (r ≡ Reply.failed e))
Reply-cases done = inl refl
Reply-cases (failed e) = inr (e, refl)

-- The leveldb::Status of a read, with the value read.
pub data Lookup : Type 0 where
  value : Bytes → Lookup
  not_found : Lookup
  failed : Bytes → Lookup

-- One entry of a leveldb::WriteBatch.
pub data Op : Type 0 where
  put : Bytes → Bytes → Op
  delete : Bytes → Op

-- leveldb::DB. `seek s k` is what an iterator over `s` yields from Seek(k) on, and
-- `scan_status` is the status of the iterator.
pub record Db : Type 1 where
  pub State : Type 0
  pub get : State → Bytes → Lookup
  pub put : State → Bytes → Bytes → State × Reply
  pub delete : State → Bytes → State × Reply
  pub write : State → List Op → State × Reply
  pub seek : State → Bytes → List (Bytes × Bytes)
  pub scan_status : State → Reply

-- store::WatchEvent and store::Session of proto/session.proto.
pub record SavedWatch : Type 0 where
  pub path : Bytes
  pub type : ℕ
  pub recursive : Bool

pub record SavedSession : Type 0 where
  pub sid : ℕ
  pub watches : List SavedWatch
  pub nodes : List Bytes
  pub timeout : ℕ

-- ParseFromString returns whether it succeeded, and leaves what it read in the message.
pub record Env : Type 1 where
  pub persist_db : Db
  pub proc_db : Db
  pub serialize : Node → Option Bytes
  pub parse : Bytes → Bool × Node
  pub byte_size : Node → ℕ
  pub serialize_session : SavedSession → Bytes
  pub parse_session : Bytes → SavedSession
  pub starts_with : Bytes → Bytes → Bool
  pub trim_left : Bytes → Bytes → Bytes
  -- FLAGS_max_node_size, in KB
  pub max_node_size : ℕ
