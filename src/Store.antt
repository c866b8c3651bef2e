-- ===== src/Store.antt =====
-- server/store.cc: the tree of nodes, kept in leveldb under the paths of the nodes, beside the
-- virtual nodes under the proc root, which another database serves.
pub mod View
pub mod Parent
pub mod Create
pub mod Delete
pub mod Write
pub mod Invariant
pub mod Init
pub mod Effects
pub mod Machine
pub mod Refine
pub mod Saved
pub mod Snapshot
pub mod Rows
use pyxis.Prelude.{
  ℕ, suc, ◌+◌, ◌*◌, ◌%◌, Bytes, codes, Bool, true, false, not, List, [], ◌∷◌, ◌++◌, Option, none,
  some, ltb, ◌==◌, if◌then◌else◌, length, ◌^◌,
}
use pyxis.Common.Status
use pyxis.Common.Status.{Status, is_ok, is_not_found, is_invalid_argument}
use pyxis.Paths.{root, slash, Parts, is_valid_path, split_path}
use pyxis.Node
use pyxis.Node.{Node, is_ephemeral, new_node, add_child, remove_child}
use pyxis.Db.{Env, Db, Lookup, Reply, Op}

-- A call that returns, or that does not: a CHECK fails and ends the process, or a loop has no end.
pub data Run {ℓ} (A : Type ℓ) : Type ℓ where
  returns : A → Run A
  aborts : Run A

abbrev or_empty : Option Bytes → Bytes
or_empty none = []
or_empty (some b) = b

abbrev pub is_nil : List Bytes → Bool
is_nil [] = true
is_nil (c ∷ cs) = false

module _ (env : Env) where
  pub record Store : Type 0 where
    pub persist : env.persist_db.State
    pub proc : env.proc_db.State
    pub proc_root : Bytes

  abbrev pub max_bytes : ℕ
  max_bytes = env.max_node_size * 1024

  abbrev pub under_proc : Store → Bytes → Bool
  under_proc s path = env.starts_with path s.proc_root

  -- SerializeAsString gives the empty string on an error.
  abbrev pub serialize_as_string : Node → Bytes
  serialize_as_string n = or_empty (env.serialize n)

  parsed : Bytes → Bool × Node → Status × Node
  parsed path (ok, node) =
      (if ok then Status.ok else Status.internal (path ++ codes " bad data"), node)

  looked_up : Bytes → Node → Lookup → Status × Node
  looked_up path node (Lookup.value b) = parsed path (env.parse b)
  looked_up path node Lookup.not_found = (Status.not_found path, node)
  looked_up path node (Lookup.failed e) = (Status.internal (path ++ codes " " ++ e), node)

  -- Store::Get, with the node that the caller passes and what is left in it.
  unfoldable pub get : Store → Bytes → Node → Status × Node
  unfolding parsed looked_up
  get s path node =
      if not (is_valid_path path)
      then (Status.invalid_argument path, node)
      else looked_up path node (
          if under_proc s path
          then env.proc_db.get s.proc path
          else env.persist_db.get s.persist path)

  put_status : Bytes → Reply → Status
  put_status path Reply.done = Status.ok
  put_status path (Reply.failed e) = Status.internal (path ++ codes " " ++ e)

  put_bytes : Store → Bytes → Bytes → Store × Status
  unfolding put_status
  put_bytes s path b =
      if under_proc s path
      then (let (p, r) = env.proc_db.put s.proc path b in
          (record s { proc = p }, put_status path r))
      else (let (p, r) = env.persist_db.put s.persist path b in
          (record s { persist = p }, put_status path r))

  -- Store::Put.
  unfoldable pub put : Store → Bytes → Node → Store × Status
  unfolding put_bytes
  put s path node =
      if not (is_valid_path path)
      then (s, Status.invalid_argument (codes "invalid path"))
      else if ltb max_bytes (env.byte_size node)
      then (s, Status.invalid_argument (codes "node size exceed"))
      else elim (env.serialize node) [
        | none ↦ (s, Status.internal (path ++ codes " bad data"))
        | some b ↦ put_bytes s path b
      ]

  -- The write of a batch, and the status when it fails.
  write_batch : Store → List Op → (Bytes → Status) → Store × Status
  write_batch s ops error =
      let (p, r) = env.persist_db.write s.persist ops in
      (record s { persist = p }, elim r [ Reply.done ↦ Status.ok | Reply.failed e ↦ error e ])

  -- The node that Create writes at its path; `son` is what Get left in the local variable.
  abbrev pub created : Node → Bytes → ℕ → ℕ → Node
  created son content flags sid =
      let node = new_node son content flags in if ltb 0 sid then record node { sid = sid } else node

  -- Create behind the reads: the parent and its checks, and the write.
  create_under : Store → Bytes → Bytes → ℕ → ℕ → Node → Parts → Status × Node → Store × Status
  unfolding write_batch
  create_under s path content flags sid son parts (st, parent) =
      if not (is_ok st)
      then (s, st)
      else if is_ephemeral parent.flags
      then (s, Status.invalid_argument (codes "parent not persistent node"))
      else if ltb max_bytes (env.byte_size (add_child parent parts.son))
      then (s, Status.invalid_argument (codes "node size exceed"))
      else write_batch s
          (Op.put path (serialize_as_string (created son content flags sid))
            ∷ Op.put parts.parent (serialize_as_string (add_child parent parts.son))
            ∷ [])
          Status.internal

  create_at : Store → Bytes → Bytes → ℕ → ℕ → Parts → Status × Node → Store × Status
  unfolding create_under
  create_at s path content flags sid parts (st, son) =
      if is_ok st
      then (s, Status.exist path)
      else if is_invalid_argument st
      then (s, st)
      else create_under s path content flags sid son parts (get s parts.parent Node.empty)

  -- Store::Create.
  unfoldable pub create : Store → Bytes → Bytes → ℕ → ℕ → Store × Status
  unfolding create_at
  create s path content flags sid =
      if under_proc s path
      then (s, Status.invalid_argument (codes "can't create node under pyxis node"))
      else if ltb max_bytes (length content)
      then (s, Status.invalid_argument (codes "node size exceed"))
      else let parts = split_path path in
        if not (is_ok parts.status)
        then (s, parts.status)
        else create_at s path content flags sid parts (get s path Node.empty)

  delete_from : Store → Bytes → Parts → Status × Node → Run (Store × Status)
  unfolding write_batch
  delete_from s path parts (st, parent) =
      if not (is_ok st) then returns (s, st) else elim (remove_child parent parts.son) [
        | none ↦ aborts
        | some parent' ↦ returns (
            write_batch s (Op.delete path ∷ Op.put parts.parent (serialize_as_string parent') ∷ [])
              (λ e. Status.internal (Status.to_string Status.ok)))
      ]

  delete_at : Store → Bytes → Parts → Status × Node → Run (Store × Status)
  unfolding delete_from
  delete_at s path parts (st, son) =
      if is_ok st
      then (if is_nil son.children
          then delete_from s path parts (get s parts.parent Node.empty)
          else returns (s, Status.invalid_argument (codes "children not empty")))
      else if is_not_found st
      then returns (s, Status.not_found path)
      else returns (s, st)

  -- Store::Delete. The CHECK on RemoveChild can end the process. A failed write is reported with
  -- the text of RemoveChild's status, which is OK.
  unfoldable pub delete : Store → Bytes → Run (Store × Status)
  unfolding delete_at
  delete s path =
      if under_proc s path
      then returns (s, Status.invalid_argument (codes "can't delete node under pyxis node"))
      else let parts = split_path path in
        if not (is_ok parts.status)
        then returns (s, parts.status)
        else delete_at s path parts (get s path Node.empty)

  -- Store::Read.
  unfoldable pub read : Store → Bytes → Status × Bytes
  unfolding get
  read s path =
      let (st, node) = get s path Node.empty in (st, if is_ok st then node.content else [])

  write_node : Store → Bytes → Bytes → Status × Node → Store × Status
  write_node s path content (st, node) =
      if not (is_ok st)
      then (s, st)
      else put s path (record node { content = content; version = (node.version + 1) % 2 ^ 64 })

  -- Store::Write.
  unfoldable pub write : Store → Bytes → Bytes → Store × Status
  unfolding write_node
  write s path content = write_node s path content (get s path Node.empty)

  root_node : Bytes → Node
  root_node proc_root =
      add_child (new_node Node.empty [] Node.persist) (env.trim_left proc_root root)

  init_with : Store → Lookup → Run Store
  unfolding root_node
  init_with s (Lookup.value b) = returns s
  init_with s _ =
      let (s', st) = put s root (root_node s.proc_root) in if is_ok st then returns s' else aborts

  -- The constructor of Store, which calls init.
  unfoldable pub new_store : env.persist_db.State → env.proc_db.State → Bytes → Run Store
  unfolding init_with
  new_store persist proc proc_root =
      init_with (record { persist = persist; proc = proc; proc_root = proc_root })
        (env.persist_db.get persist root)
