-- ===== src/Store/Effects.antt =====
-- What successful calls did to the nodes, and what a later call reads.
use pyxis.Prelude.{
  ℕ, ◌+◌, ◌%◌, ◌^◌, Bytes, true, false, [], some, ◌≡◌, sym, ap, ◌∙◌, arith, beq, beq_iff, beq_refl,
  inl, inr, if◌then◌else◌,
}
use pyxis.Common.Status
use pyxis.Common.Status.{Status, is_ok}
use pyxis.Paths.{split_path}
use pyxis.Node
use pyxis.Node.{Node, add_child, remove_child, is_ephemeral}
use pyxis.Tree.{holds, vacant}
use pyxis.Tree.Grow.{IsGrown}
use pyxis.Tree.Prune.{IsPruned}
use pyxis.Tree.Update.{IsUpdated}
use pyxis.Db.{Env, Reply}
use pyxis.Db.Laws.{IsEnv}
use pyxis.Store.{Store, returns, create, delete, write, read, created, under_proc}
use pyxis.Store.View.{view, get-vacant, read-view, written, view-delete_put}
use pyxis.Store.Invariant.{IsStore, free}
use pyxis.Store.Create.{
  create-Passed, create-view, IsOpen-path, parent-view, found, found_parent, Passed,
}
use pyxis.Store.Delete.{
  delete-cases, victim, victim-view, above, above-view, finished, delete_batch,
  delete-IsOpen_parent,
}
use pyxis.Store.Write.{write-cases, write-view, target, target-view, rewritten}

-- The node that Create writes.
abbrev pub node_of : Bytes → ℕ → ℕ → Node
node_of content flags sid = record {
  content = content;
  children = [];
  flags = flags;
  version = 0;
  sid = sid;
}

created-empty :
    (env : Env) (content : Bytes) (flags sid : ℕ)
    → created env Node.empty content flags sid ≡ node_of content flags sid
created-empty env content flags sid = ground arith

module _ (env : Env) (l : IsEnv env) (s : Store env) (v : IsStore env s) where
  -- A successful Create found nothing at the path and a parent that is not ephemeral; behind it the
  -- path holds a new node of version 0 with the given data, flags and session and no children, the
  -- parent has the name as one more child, and every other node is as it was.
  pub create_ok :
      (path content : Bytes) (flags sid : ℕ)
      → is_ok (create env s path content flags sid).1 ≡ true
      → (parent : Node) × (view env s path ≡ vacant)
        × (view env s (split_path path).parent ≡ holds parent)
        × (is_ephemeral parent.flags ≡ false)
        × IsGrown
            (view env s)
            (view env (create env s path content flags sid).0)
            path
            parent
            (node_of content flags sid)
  create_ok path content flags sid h =
      let c : Passed env s path content flags sid = create-Passed env s path content flags sid h in
      let empty : view env s path ≡ vacant = free env l s v path content flags sid c in
      let left : (found env s path).1 ≡ Node.empty =
        ap (λ (r : Status × Node). r.1)
          (get-vacant env s path Node.empty (IsOpen-path env s path content flags sid l c) empty) in
      let written : created env (found env s path).1 content flags sid ≡ node_of content flags sid =
        ap (λ n. created env n content flags sid) left ∙ created-empty env content flags sid in
      (
        (found_parent env s path).1,
        empty,
        parent-view env s path content flags sid l c,
        c.parent_persists,
        λ k.
            create-view env s path content flags sid l c k
            ∙ ap
                (λ n.
                  if beq (split_path path).parent k
                  then holds (add_child (found_parent env s path).1 (split_path path).son)
                  else if beq path k
                  then holds n
                  else view env s k)
                written,
      )

  -- Behind a successful Create, Read at the path returns the data.
  pub read-create :
      (path content : Bytes) (flags sid : ℕ)
      → is_ok (create env s path content flags sid).1 ≡ true
      → read env (create env s path content flags sid).0 path ≡ (Status.ok, content)
  read-create path content flags sid h =
      let (parent, empty, under, _, grown) = create_ok path content flags sid h in
      read-view env _ path (node_of content flags sid) (
        grown path
        ∙ ground (arith, empty, under, beq_iff (split_path path).parent path, beq_refl path))

  -- A successful Delete found a node without children and its parent; behind it the path holds
  -- nothing, the parent has the name once less, and every other node is as it was.
  pub delete_ok :
      (path : Bytes) (r : Store env × Status)
      → delete env s path ≡ returns r
      → is_ok r.1 ≡ true
      → (node parent parent' : Node) × (view env s path ≡ holds node)
        × (node.children ≡ [])
        × (view env s (split_path path).parent ≡ holds parent)
        × (remove_child parent (split_path path).son ≡ some parent')
        × IsPruned (view env s) (view env r.0) path parent'
  delete_ok path r e h = elim (delete-cases env s path) [
    | inl (st, d, bad) ↦ absurd (ground (arith, sym d ∙ e))
    | inr (inl (c, _, d)) ↦ absurd (ground (arith, sym d ∙ e))
    | inr (inr (parent', c, removed, d)) ↦
        let same : returns (finished env s path parent') ≡ returns r = sym d ∙ e in
        let wrote : (env.persist_db.write s.persist (delete_batch env s path parent')).1
            ≡ Reply.done =
          ground (arith, same) in
        let stored : written env s (delete_batch env s path parent') ≡ r.0 = ground (arith, same) in
        (
          (victim env s path).1,
          (above env s path).1,
          parent',
          victim-view env s path l c,
          c.childless,
          above-view env s path l c,
          removed,
          λ k.
              ap (λ t. view env t k) (sym stored)
              ∙ view-delete_put env l s path (split_path path).parent parent' k
                  (delete-IsOpen_parent env s path l c) wrote,
        )
  ]

  -- A successful Write outside the proc root found a node; behind it the node has the new data and
  -- the next version, and every other node is as it was.
  pub write_ok :
      (path content : Bytes)
      → under_proc env s path ≡ false
      → is_ok (write env s path content).1 ≡ true
      → (node : Node) × (view env s path ≡ holds node)
        × IsUpdated
            (view env s)
            (view env (write env s path content).0)
            path
            (record node { content = content; version = (node.version + 1) % 2 ^ 64 })
  write_ok path content out h = elim (write-cases env s path content) [
    | inl (_, _, bad) ↦ absurd (ground (arith, bad out))
    | inr r ↦ (
      (target env s path content).1,
      target-view env s path content l r,
      write-view env s path content l r (
          sym
            (ap (λ (w : env.persist_db.State × Reply). w.1) (l.leveldb.put_write s.persist path _))
          ∙ r.reply h),
    )
  ]

  -- Behind a successful Write, Read at the path returns the data.
  pub read-write :
      (path content : Bytes)
      → under_proc env s path ≡ false
      → is_ok (write env s path content).1 ≡ true
      → read env (write env s path content).0 path ≡ (Status.ok, content)
  read-write path content out h =
      let (node, held, updated) = write_ok path content out h in
      read-view env _ path (rewritten node content) (updated path ∙ ground (arith, beq_refl path))
