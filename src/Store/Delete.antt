-- ===== src/Store/Delete.antt =====
-- Delete: what a successful call needs and does, what a failing one leaves, and that its CHECK
-- holds on a tree.
use pyxis.Prelude.{
  Bytes, Bool, true, false, not, List, [], ◌∷◌, none, some, ◌≡◌, ◌⊎◌, inl, inr, arith, Bool-cases,
  Option-cases, ◌&&◌,
}
use pyxis.Common.Status
use pyxis.Common.Status.{Status, is_ok, to_string, is_not_found}
use pyxis.Paths.{split_path}
use pyxis.Node
use pyxis.Node.{Node, remove_child}
use pyxis.Tree.{holds}
use pyxis.Db.{Env, Reply, Op}
use pyxis.Db.Laws.{IsEnv}
use pyxis.Store.{Store, Run, returns, aborts, under_proc, get, delete, serialize_as_string, is_nil}
use pyxis.Store.View.{view, written, IsOpen, get-view}
use pyxis.Store.Parent.{parent-IsOpen, get-found}

abbrev status_of {ℓ} : {A : Type ℓ} → Run (A × Status) → Status
status_of (returns (a, st)) = st
status_of aborts = Status.ok

module _ (env : Env) (s : Store env) (path : Bytes) where
  abbrev pub delete_parent : Bytes
  delete_parent = (split_path path).parent

  abbrev pub victim : Status × Node
  victim = get env s path Node.empty

  abbrev pub above : Status × Node
  above = get env s delete_parent Node.empty

  abbrev pub delete_batch : Node → List Op
  delete_batch parent' =
      Op.delete path ∷ Op.put delete_parent (serialize_as_string env parent') ∷ []

  -- The checks before RemoveChild.
  pub record Cleared : Type 0 where
    pub outside : under_proc env s path ≡ false
    pub splits : is_ok (split_path path).status ≡ true
    pub found : is_ok victim.0 ≡ true
    pub childless : victim.1.children ≡ []
    pub parent_found : is_ok above.0 ≡ true

  -- What Delete does behind a RemoveChild that found the name.
  abbrev pub finished : Node → Store env × Status
  finished parent' = (
    written env s (delete_batch parent'),
    elim (env.persist_db.write s.persist (delete_batch parent')).1 [
      | Reply.done ↦ Status.ok
      | Reply.failed e ↦ Status.internal []
    ],
  )

  cleared : Bool
  cleared =
      not (under_proc env s path)
      && is_ok (split_path path).status
      && is_ok victim.0
      && is_nil victim.1.children
      && is_ok above.0

  -- A call returns at a check with the store as it was, aborts where RemoveChild does not find the
  -- name, or writes.
  pub delete-cases :
      ((st : Status) × (delete env s path ≡ returns (s, st)) × (is_ok st ≡ false))
      ⊎ (Cleared
          × (remove_child above.1 (split_path path).son ≡ none)
          × (delete env s path ≡ aborts))
      ⊎ ((parent' : Node) × Cleared
          × (remove_child above.1 (split_path path).son ≡ some parent')
          × (delete env s path ≡ returns (finished parent')))
  unfolding delete cleared to_string
  delete-cases = elim (Bool-cases cleared) [
    | inr stop ↦ inl (status_of (delete env s path), ground arith, ground arith)
    | inl go ↦ elim (Option-cases (remove_child above.1 (split_path path).son)) [
      | inl e ↦ inr (inl (ground arith, e, ground arith))
      | inr (parent', e) ↦ inr (inr (parent', ground arith, e, ground arith))
    ]
  ]

  -- A node that is there, under a parent that is there, is never told to be missing.
  pub delete-found :
      (r : Store env × Status)
      → under_proc env s path ≡ false
      → is_not_found (split_path path).status ≡ false
      → is_ok victim.0 ≡ true
      → (is_ok (split_path path).status ≡ true → is_ok above.0 ≡ true)
      → delete env s path ≡ returns r
      → is_not_found r.1 ≡ false
  unfolding delete to_string
  delete-found r out named found under h = elim (Bool-cases (is_ok (split_path path).status)) [
    | inr b ↦ ground (arith, h)
    | inl b ↦ elim (Bool-cases (is_nil victim.1.children)) [
      | inr c ↦ ground (arith, h, under b)
      | inl c ↦ elim (Option-cases (remove_child above.1 (split_path path).son)) [
        | inl e ↦ ground (arith, h, under b)
        | inr (parent', e) ↦ ground (arith, h, under b)
      ]
    ]
  ]

  module _ (l : IsEnv env) (c : Cleared) where
    pub delete-IsOpen : IsOpen env s path
    delete-IsOpen = (c.outside, get-found env s path Node.empty c.found)

    pub delete-IsOpen_parent : IsOpen env s delete_parent
    delete-IsOpen_parent = parent-IsOpen env l s path delete-IsOpen c.splits

    pub victim-view : view env s path ≡ holds victim.1
    victim-view = rw (← get-view env s path Node.empty delete-IsOpen, c.found)

    pub above-view : view env s delete_parent ≡ holds above.1
    above-view = rw (← get-view env s delete_parent Node.empty delete-IsOpen_parent, c.parent_found)
