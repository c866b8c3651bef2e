-- ===== src/ProcDb.antt =====
-- server/proc_db.h and proc_db.cc: the database of the virtual nodes under the proc root.
pub mod Routes
pub mod Registered
use pyxis.Prelude.{
  ℕ, Bytes, codes, Bool, true, false, not, List, [], ◌∷◌, ◌++◌, Option, none, some, map,
  if◌then◌else◌, beq, drop, length,
}
use pyxis.Maps.{assign, set_insert}
use pyxis.Maps.Keys.{bytes_key}
use pyxis.Common.Status
use pyxis.Common.Status.{Status, is_ok, is_not_found}
use pyxis.Paths.{root}
use pyxis.Node
use pyxis.Node.{Node}
use pyxis.Db.{Lookup, Reply}

-- A ReadNodeCallback: ProcDB's own two, or one that a client registered, which gives a status and
-- what it leaves in the value.
pub data Reader : Type 0 where
  on_proc_read : Reader
  empty_read : Reader
  client : (List Bytes → Status × Bytes) → Reader

-- A WriteNodeCallback.
abbrev pub Writer : Type 0
Writer = List Bytes → Bytes → Status

-- ProcDB: the root, readMap_ and writeMap_.
pub record ProcDb : Type 0 where
  pub top : Bytes
  pub readers : List (Bytes × Reader)
  pub writers : List (Bytes × Writer)

-- RegisterReadNode.
unfoldable pub register_read_node : ProcDb → Bytes → Reader → ProcDb
register_read_node db path r = record db { readers = assign path r db.readers }

-- RegisterWriteNode, which makes the node readable too.
unfoldable pub register_write_node : ProcDb → Bytes → Writer → ProcDb
register_write_node db path w = record db {
  writers = assign path w db.writers;
  readers = assign path Reader.empty_read db.readers;
}

-- The constructor registers "/pyxis", whatever the root.
unfoldable pub new_proc_db : Bytes → ProcDb
unfolding register_read_node
new_proc_db top =
    register_read_node (record { top = top; readers = []; writers = [] }) (codes "/pyxis")
      Reader.on_proc_read

-- `starts_with` is that of toft's StringPiece.
module _ (starts_with : Bytes → Bytes → Bool) where
  -- The loop from rbegin(): the last entry of the map whose key is a prefix of the path.
  unfoldable pub route {ℓ} : {A : Type ℓ} → Bytes → List (Bytes × A) → Option (Bytes × A)
  route path [] = none
  route path ((k, a) ∷ m) = elim (route path m) [
    | some e ↦ some e
    | none ↦ if starts_with path k then some (k, a) else none
  ]

-- toft's SplitString at "/" and StringTrimLeft, StringPiece's starts_with, SerializeToString, and
-- the text of leveldb's InvalidArgument.
module _ (split : Bytes → List Bytes) (trim_left : Bytes → Bytes → Bytes)
    (starts_with : Bytes → Bytes → Bool) (serialize : Node → Bytes)
    (invalid_text : Bytes → Bytes) where
  names {ℓ} : {A : Type ℓ} → List (Bytes × A) → List Bytes → List Bytes
  names [] set = set
  names ((k, a) ∷ m) set = names m (set_insert k set)

  child_names : Bytes → List Bytes → List Bytes
  child_names top [] = []
  child_names top (k ∷ ks) =
      let rest = child_names top ks in
      if beq k top then rest else trim_left (drop (length top) k) root ∷ rest

  -- onProcRead: the names of all nodes.
  list_nodes : ProcDb → List Bytes → Status × Bytes
  unfolding names child_names
  list_nodes db [] = (
    Status.ok,
    serialize (record Node.empty {
      flags = Node.persist;
      children = child_names db.top (names db.writers (names db.readers []));
    }),
  )
  list_nodes db (a ∷ args) = (Status.not_found [], [])

  read_with : ProcDb → Reader → List Bytes → Status × Bytes
  unfolding list_nodes
  read_with db Reader.on_proc_read args = list_nodes db args
  read_with db Reader.empty_read args =
      (Status.ok, serialize (record Node.empty { content = codes "write only" }))
  read_with db (Reader.client f) args = f args

  -- Get.
  unfoldable pub get : ProcDb → Bytes → Lookup
  unfolding route read_with
  get db path = elim (route starts_with path db.readers) [
    | none ↦ Lookup.not_found
    | some (prefix, reader) ↦
        let (st, value) = read_with db reader (split (drop (length prefix) path)) in
        if is_ok st
        then Lookup.value value
        else if is_not_found st
        then Lookup.not_found
        else Lookup.failed (invalid_text (Status.to_string st))
  ]

  -- Put; a failure is given with the text of the leveldb status.
  unfoldable pub put : (Bytes → Bytes) → ProcDb → Bytes → Bytes → Reply
  unfolding route
  put not_found_text db path value = elim (route starts_with path db.writers) [
    | none ↦ Reply.failed (not_found_text path)
    | some (prefix, writer) ↦
        let st = writer (split (drop (length prefix) path)) value in
        if is_ok st
        then Reply.done
        else if is_not_found st
        then Reply.failed (not_found_text (Status.to_string st))
        else Reply.failed (invalid_text (Status.to_string st))
  ]
