-- ===== src/Store/Create.antt =====
-- Create: what a successful call needs and does, and what a failing one leaves.
use pyxis.Prelude.{
  ℕ, Bytes, true, false, List, [], ◌∷◌, ◌≡◌, ◌≢◌, arith, beq, if◌then◌else◌, ◌⊎◌, inl, inr,
}
use pyxis.Common.Status.{Status, is_ok, is_invalid_argument}
use pyxis.Paths.{split_path}
use pyxis.Node
use pyxis.Node.{Node, add_child, is_ephemeral}
use pyxis.Tree.{holds}
use pyxis.Db.{Env, Reply, Op}
use pyxis.Db.Laws.{IsEnv}
use pyxis.Store.{Store, under_proc, get, create, created, serialize_as_string}
use pyxis.Store.View.{view, written, IsOpen, get-view, view-put_put, told, view-failed}
use pyxis.Store.Parent.{get-valid, parent-IsOpen}

module _ (env : Env) (s : Store env) (path : Bytes) where
  abbrev pub parent : Bytes
  parent = (split_path path).parent

  abbrev pub found : Status × Node
  found = get env s path Node.empty

  abbrev pub found_parent : Status × Node
  found_parent = get env s parent Node.empty

  abbrev pub new_parent : Node
  new_parent = add_child found_parent.1 (split_path path).son

module _ (env : Env) (s : Store env) (path content : Bytes) (flags sid : ℕ) where
  abbrev pub batch : List Op
  batch =
      Op.put path (serialize_as_string env (created env (found env s path).1 content flags sid))
      ∷ Op.put (parent env s path) (serialize_as_string env (new_parent env s path))
      ∷ []

  -- The checks that a successful call has passed, and its write.
  pub record Passed : Type 0 where
    pub outside : under_proc env s path ≡ false
    pub splits : is_ok (split_path path).status ≡ true
    pub fresh : is_ok (found env s path).0 ≡ false
    pub valid : is_invalid_argument (found env s path).0 ≡ false
    pub parent_found : is_ok (found_parent env s path).0 ≡ true
    pub parent_persists : is_ephemeral (found_parent env s path).1.flags ≡ false
    pub wrote : (env.persist_db.write s.persist batch).1 ≡ Reply.done
    pub stored : (create env s path content flags sid).0 ≡ written env s batch

  pub create-Passed : is_ok (create env s path content flags sid).1 ≡ true → Passed
  unfolding create
  create-Passed h = ground arith

  module _ (l : IsEnv env) where
    -- The path and its parent are valid and outside the proc root.
    pub IsOpen-path : Passed → IsOpen env s path
    IsOpen-path c = (c.outside, get-valid env s path Node.empty c.valid)

    pub IsOpen-parent : Passed → IsOpen env s (parent env s path)
    IsOpen-parent c = parent-IsOpen env l s path (IsOpen-path c) c.splits

    -- The nodes behind the successful reads are those of the view.
    pub parent-view : Passed → view env s (parent env s path) ≡ holds (found_parent env s path).1
    parent-view c =
        rw (← get-view env s (parent env s path) Node.empty (IsOpen-parent c), c.parent_found)

    pub path-view : Passed → told env (found env s path) ≡ view env s path
    path-view c = get-view env s path Node.empty (IsOpen-path c)

    pub create-view :
        Passed
        → (k : Bytes)
        → view env (create env s path content flags sid).0 k ≡ (
            if beq (parent env s path) k
            then holds (new_parent env s path)
            else if beq path k
            then holds (created env (found env s path).1 content flags sid)
            else view env s k)
    create-view c k = rw c.stored (
        view-put_put env l s path (parent env s path)
          (created env (found env s path).1 content flags sid) (new_parent env s path) k
          (IsOpen-path c) (IsOpen-parent c) c.wrote)

  -- A failing call returns before it writes, or its batch fails.
  pub create_unpassed :
      is_ok (create env s path content flags sid).1 ≡ false
      → ((create env s path content flags sid).0 ≡ s)
        ⊎ (((env.persist_db.write s.persist batch).1 ≢ Reply.done)
            × ((create env s path content flags sid).0 ≡ written env s batch))
  unfolding create
  create_unpassed h = ground arith

  -- A Create that fails leaves every node as it was.
  pub create_failed :
      IsEnv env
      → is_ok (create env s path content flags sid).1 ≡ false
      → (k : Bytes) → view env (create env s path content flags sid).0 k ≡ view env s k
  create_failed l h k = elim (create_unpassed h) [
    | inl e ↦ rw e
    | inr (r, e) ↦ rw e (view-failed env l s batch k r)
  ]

  pub create-proc_root : (create env s path content flags sid).0.proc_root ≡ s.proc_root
  unfolding create
  create-proc_root = ground arith
