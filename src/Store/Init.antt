-- ===== src/Store/Init.antt =====
-- The constructor of Store on an empty database.
use pyxis.Prelude.{
  refl, ℕ, Bytes, [], ◌∷◌, ◌≡◌, ◌≢◌, ap, ◌∙◌, arith, beq, Bool-cases, inl, inr, rfind,
  if◌then◌else◌, Option-cases, false,
}
use pyxis.Paths.{root, slash}
use pyxis.Paths.Valid.{root-is_valid}
use pyxis.Paths.Split.{IsName, split_path-append}
use pyxis.Node.{Node, add_child, is_ephemeral}
use pyxis.Tree.{holds, vacant}
use pyxis.Tree.Start.{start-IsTree}
use pyxis.Db.{Env, Op, Reply, Lookup}
use pyxis.Db.Laws.{IsEnv}
use pyxis.Store.{Store, returns, new_store, under_proc, put, root_node, serialize_as_string}
use pyxis.Store.View.{view, IsOpen, view-put, written}
use pyxis.Store.Invariant.{IsStore}

head-not-slash : (c : ℕ) (s : Bytes) → IsName (c ∷ s) → c ≢ slash
unfolding rfind
head-not-slash c s h e = ground (arith, h.no_slash)

module _ (env : Env) (l : IsEnv env) (persist : env.persist_db.State) (proc : env.proc_db.State)
    (c : ℕ) (name : Bytes) (good : IsName (c ∷ name))
    (empty : (k : Bytes) → env.persist_db.get persist k ≡ Lookup.not_found) where
  abbrev fresh : Store env
  fresh = record { persist = persist; proc = proc; proc_root = slash ∷ c ∷ name }

  abbrev first : Node
  first = root_node env (slash ∷ c ∷ name)

  root-IsOpen : IsOpen env fresh root
  root-IsOpen = elim (Bool-cases (under_proc env fresh root)) [
    | inr e ↦ (e, root-is_valid)
    | inl e ↦
        let (rest, at) = (l.starts_with_iff root (slash ∷ c ∷ name)).0 e in
        absurd (ground (arith, at))
  ]

  fresh-view : (k : Bytes) → view env fresh k ≡ vacant
  unfolding view
  fresh-view k = rw (empty k) (ground arith)

  first-children : first.children ≡ (c ∷ name) ∷ []
  unfolding root_node add_child
  first-children = ap (λ x. x ∷ []) (l.trim_left_root c name (head-not-slash c name good))

  -- On an empty database the constructor writes the root, or aborts.
  made :
      (s : Store env)
      → new_store env persist proc (slash ∷ c ∷ name) ≡ returns s
      → ((env.persist_db.write persist (Op.put root (serialize_as_string env first) ∷ [])).1
          ≡ Reply.done)
        × (s ≡ written env fresh (Op.put root (serialize_as_string env first) ∷ []))
  unfolding new_store put
  made s h = elim (Option-cases (env.serialize first)) [
    | inl e ↦ absurd (ground (arith, empty root, root-IsOpen, root-is_valid))
    | inr (b, e) ↦ (
      ground (arith, empty root, root-IsOpen, root-is_valid, l.leveldb.put_write persist root b),
      ground (arith, empty root, root-IsOpen, root-is_valid, l.leveldb.put_write persist root b),
    )
  ]

  -- A store that is made on an empty database holds the root, which is persistent, and nothing else.
  pub new_store-view :
      (s : Store env)
      → new_store env persist proc (slash ∷ c ∷ name) ≡ returns s
      → (first : Node) × (is_ephemeral first.flags ≡ false)
        × ((k : Bytes) → view env s k ≡ (if beq root k then holds first else vacant))
  unfolding root_node add_child
  new_store-view s h =
      let (wrote, at) = made s h in
      (
        first,
        refl,
        λ k.
            ap (λ t. view env t k) at
            ∙ view-put env l fresh root first k root-IsOpen wrote
            ∙ ap (λ o. if beq root k then holds first else o) (fresh-view k),
      )

  -- A store that is made on an empty database is a tree: the root, with the proc root under it.
  pub new_store-IsStore :
      (s : Store env) → new_store env persist proc (slash ∷ c ∷ name) ≡ returns s → IsStore env s
  new_store-IsStore s h =
      let (wrote, at) = made s h in
      rw at (record {
        tree =
            start-IsTree (c ∷ name) (view env (written env fresh _)) first good first-children (λ k.
              view-put env l fresh root first k root-IsOpen wrote
              ∙ ap (λ o. if beq root k then holds first else o) (fresh-view k));
        top = ap (λ p. p.parent) (split_path-append [] (c ∷ name) good);
      })
