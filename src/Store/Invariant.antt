-- ===== src/Store/Invariant.antt =====
-- The operations of the store keep its nodes a tree.
use pyxis.Prelude.{
  ℕ, Bytes, [], ◌∷◌, none, some, ◌≡◌, ◌≢◌, refl, sym, ap, subst, fun_ext, arith, Bool-cases, inl,
  inr,
}
use pyxis.Common.Status.{Status, is_ok}
use pyxis.Paths.{root, split_path}
use pyxis.Paths.Split.{split_path-ok}
use pyxis.Node
use pyxis.Node.{Node, remove_child}
use pyxis.Tree.{IsTree, vacant}
use pyxis.Tree.Grow.{grow-IsTree}
use pyxis.Tree.Prune.{prune-IsTree}
use pyxis.Tree.Update.{update-IsTree}
use pyxis.Db.{Env, Op, Reply-cases}
use pyxis.Db.Laws.{IsEnv}
use pyxis.Store.{created, Store, returns, create, delete, write}
use pyxis.Store.View.{view, get-vacant, view-delete_put, view-failed, view-same}
use pyxis.Store.Parent.{outside-ne}
use pyxis.Store.Create.{
  found, found_parent, path-view, parent-view, IsOpen-path, create-view, create-proc_root, Passed,
  create-Passed, create_failed,
}
use pyxis.Store.Delete.{
  Cleared, above, finished, delete-cases, victim, victim-view, above-view, delete-IsOpen_parent,
  delete_batch,
}
use pyxis.Tree.Own.{listed}
use pyxis.Store.Write.{
  write-cases, update, target, target-view, rewritten, write-view, write-unchanged,
}
use pyxis.Node.Children.{remove_child-missing}

module _ (env : Env) where
  -- The nodes are a tree, and the proc root stands right under the root.
  pub record IsStore (s : Store env) : Type 0 where
    pub tree : IsTree s.proc_root (view env s)
    pub top : (split_path s.proc_root).parent ≡ root

  -- A store with the same proc root and the same nodes.
  pub same-IsStore :
      (s s' : Store env)
      → s'.proc_root ≡ s.proc_root
      → ((k : Bytes) → view env s' k ≡ view env s k)
      → IsStore s
      → IsStore s'
  same-IsStore s s' e h v = record {
    tree =
        subst (λ r. IsTree r (view env s')) (sym e)
          (subst (IsTree s.proc_root) (sym (fun_ext h)) v.tree);
    top = subst (λ r. (split_path r).parent ≡ root) (sym e) v.top;
  }

  module _ (l : IsEnv env) (s : Store env) (v : IsStore s) where
    module _ (path content : Bytes) (flags sid : ℕ) (c : Passed env s path content flags sid) where
      pub free : view env s path ≡ vacant
      free =
          ground (arith, path-view env s path content flags sid l c, v.tree.readable path, c.fresh)

      childless : (created env (found env s path).1 content flags sid).children ≡ []
      childless = ground (
        arith,
        ap (λ (r : Status × Node). r.1.children)
            (get-vacant env s path Node.empty (IsOpen-path env s path content flags sid l c) free),
      )

      created-IsStore : IsStore (create env s path content flags sid).0
      created-IsStore = record {
        tree =
            subst (λ r. IsTree r (view env (create env s path content flags sid).0))
              (ap (λ (t : Store env). t.proc_root) (sym c.stored))
              (grow-IsTree s.proc_root (view env s)
                (view env (create env s path content flags sid).0) path (found_parent env s path).1
                (created env (found env s path).1 content flags sid) v.tree
                (outside-ne env l s path c.outside) v.top (split_path-ok path c.splits) free
                (parent-view env s path content flags sid l c) c.parent_persists childless
                (create-view env s path content flags sid l c));
        top =
            subst (λ r. (split_path r).parent ≡ root)
              (ap (λ (t : Store env). t.proc_root) (sym c.stored)) v.top;
      }

    -- Create keeps the nodes a tree, whether it succeeds or fails.
    pub create-IsStore :
        (path content : Bytes) (flags sid : ℕ) → IsStore (create env s path content flags sid).0
    create-IsStore path content flags sid =
        elim (Bool-cases (is_ok (create env s path content flags sid).1)) [
          | inl e ↦
              created-IsStore path content flags sid (create-Passed env s path content flags sid e)
          | inr e ↦
              same-IsStore s (create env s path content flags sid).0
                (create-proc_root env s path content flags sid)
                (create_failed env s path content flags sid l e) v
        ]

    module _ (path : Bytes) where
      -- Where the name of a node is gone from its parent, the tree is broken.
      removable :
          Cleared env s path → remove_child (above env s path).1 (split_path path).son ≢ none
      removable c e = ground (
        arith,
        listed s.proc_root (view env s) path (victim env s path).1 (above env s path).1 v.tree
            (split_path-ok path c.splits) (victim-view env s path l c) (above-view env s path l c),
        remove_child-missing (split_path path).son (above env s path).1 e,
      )

      finished-IsStore :
          (c : Cleared env s path) (parent' : Node)
          → remove_child (above env s path).1 (split_path path).son ≡ some parent'
          → IsStore (finished env s path parent').0
      finished-IsStore c parent' e =
          elim (Reply-cases (env.persist_db.write s.persist (delete_batch env s path parent')).1) [
            | inl wrote ↦ record {
              tree =
                  prune-IsTree s.proc_root (view env s) (view env (finished env s path parent').0)
                    path (above env s path).1 parent' (victim env s path).1 v.tree
                    (outside-ne env l s path c.outside) (split_path-ok path c.splits)
                    (victim-view env s path l c) c.childless (above-view env s path l c) e
                    (λ k.
                      view-delete_put env l s path (split_path path).parent parent' k
                        (delete-IsOpen_parent env s path l c) wrote);
              top = v.top;
            }
            | inr (m, failed) ↦
                same-IsStore s (finished env s path parent').0 refl
                  (λ k. view-failed env l s (delete_batch env s path parent') k (λ z. cc)) v
          ]

    -- Delete does not abort on a tree, and keeps it a tree, whether it succeeds or fails.
    pub delete-IsStore :
        (path : Bytes) → (r : Store env × Status) × (delete env s path ≡ returns r) × IsStore r.0
    delete-IsStore path = elim (delete-cases env s path) [
      | inl (st, e, _) ↦ ((s, st), e, v)
      | inr (inl (c, e, _)) ↦ absurd (removable path c e)
      | inr (inr (parent', c, e, d)) ↦
          (finished env s path parent', d, finished-IsStore path c parent' e)
    ]

    -- Write keeps the nodes a tree, whether it succeeds or fails.
    pub write-IsStore : (path content : Bytes) → IsStore (write env s path content).0
    write-IsStore path content = elim (write-cases env s path content) [
      | inl (e, f, _) ↦ same-IsStore s _ f (view-same env s _ e f) v
      | inr r ↦
          let root_kept : (write env s path content).0.proc_root ≡ s.proc_root =
            ap (λ (t : Store env). t.proc_root) r.stored in
          elim (Reply-cases
            (env.persist_db.write s.persist (Op.put path (update env s path content) ∷ [])).1) [
              | inl wrote ↦ record {
                tree =
                    subst (λ q. IsTree q (view env (write env s path content).0)) (sym root_kept)
                      (update-IsTree s.proc_root (view env s)
                        (view env (write env s path content).0) path (target env s path content).1
                        (rewritten (target env s path content).1 content) v.tree
                        (target-view env s path content l r) refl refl
                        (write-view env s path content l r wrote));
                top = subst (λ q. (split_path q).parent ≡ root) (sym root_kept) v.top;
              }
              | inr (m, failed) ↦
                  same-IsStore s _ root_kept (write-unchanged env s path content l r (λ z. cc)) v
            ]
    ]
