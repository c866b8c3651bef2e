-- ===== src/Store/Refine.antt =====
-- The calls of the store against an abstract tree: a function from paths to nodes, and what each call
-- may do to it.
use pyxis.Prelude.{
  ℕ, Bytes, true, false, List, [], ◌∷◌, ◌≡◌, refl, sym, ap, subst, ◌∙◌, arith, Bool-cases, inl, inr,
}
use pyxis.Common.Status.{Status, is_ok}
use pyxis.Db.{Env, Reply}
use pyxis.Db.Laws.{IsEnv}
use pyxis.Store
use pyxis.Store.{Store, Run, returns, aborts, under_proc}
use pyxis.Store.View.{view, view-same, view-failed}
use pyxis.Store.Invariant.{IsStore, create-IsStore, delete-IsStore, write-IsStore}
use pyxis.Store.Create.{create_failed, create-proc_root}
use pyxis.Store.Delete.{delete-cases, delete_batch, finished}
use pyxis.Store.Write.{write-cases, write-unchanged}
use pyxis.Store.Effects.{create_ok, delete_ok, write_ok}
use pyxis.Store.Machine.{
  Call, create, delete, write, Does, refuses, hands_on, grows, prunes, updates, Runs, none_left,
  then_runs,
}

module _ (env : Env) where
  -- A call of the store.
  unfoldable pub apply : Call → Store env → Run (Store env × Status)
  apply (create path content flags sid) s = returns (Store.create env s path content flags sid)
  apply (delete path) s = Store.delete env s path
  apply (write path content) s = returns (Store.write env s path content)

  unfoldable pub apply_all : List Call → Store env → Run (Store env × List Status)
  unfolding apply
  apply_all [] s = returns (s, [])
  apply_all (c ∷ calls) s = elim (apply c s) [
    | aborts ↦ aborts
    | returns (t, st) ↦ elim (apply_all calls t) [
      | aborts ↦ aborts
      | returns (u, sts) ↦ returns (u, st ∷ sts)
    ]
  ]

  -- What one call does.
  pub record Applied (c : Call) (s : Store env) : Type 0 where
    pub result : Store env × Status
    pub ran : apply c s ≡ returns result
    pub good : IsStore env result.0
    pub kept : result.0.proc_root ≡ s.proc_root
    pub does : Does (under_proc env s) (view env s) (view env result.0) c result.1

  module _ (l : IsEnv env) (s : Store env) (v : IsStore env s) where
    pub created : (path content : Bytes) (flags sid : ℕ) → Applied (create path content flags sid) s
    unfolding apply
    created path content flags sid = record {
      result = Store.create env s path content flags sid;
      ran = refl;
      good = create-IsStore env l s v path content flags sid;
      kept = create-proc_root env s path content flags sid;
      does = elim (Bool-cases (is_ok (Store.create env s path content flags sid).1)) [
        | inl h ↦
            let (parent, free, under, persists, grown) =
              create_ok env l s v path content flags sid h in
            grows path content flags sid _ parent h free under persists grown
        | inr h ↦ refuses _ _ h (create_failed env s path content flags sid l h)
      ];
    }

    delete_kept :
        (path : Bytes) (r : Store env × Status)
        → Store.delete env s path ≡ returns r
        → r.0.proc_root ≡ s.proc_root
    delete_kept path r e = elim (delete-cases env s path) [
      | inl (st, d, _) ↦ ground (arith, sym d ∙ e)
      | inr (inl (_, _, d)) ↦ absurd (ground (arith, sym d ∙ e))
      | inr (inr (parent', _, _, d)) ↦ ground (arith, sym d ∙ e)
    ]

    delete_failed :
        (path : Bytes) (r : Store env × Status)
        → Store.delete env s path ≡ returns r
        → is_ok r.1 ≡ false
        → (k : Bytes) → view env r.0 k ≡ view env s k
    delete_failed path r e h k = elim (delete-cases env s path) [
      | inl (st, d, _) ↦ let same : returns (s, st) ≡ returns r = sym d ∙ e in cc same
      | inr (inl (_, _, d)) ↦ absurd (ground (arith, sym d ∙ e))
      | inr (inr (parent', _, _, d)) ↦
          let same : returns (finished env s path parent') ≡ returns r = sym d ∙ e in
          let stored : (finished env s path parent').0 ≡ r.0 = ground (arith, same) in
          ap (λ t. view env t k) (sym stored)
          ∙ view-failed env l s (delete_batch env s path parent') k
              (λ z. absurd (ground (arith, same, z)))
    ]

    pub deleted : (path : Bytes) → Applied (delete path) s
    unfolding apply
    deleted path =
        let (r, e, good) = delete-IsStore env l s v path in
        record {
          result = r;
          ran = e;
          good = good;
          kept = delete_kept path r e;
          does = elim (Bool-cases (is_ok r.1)) [
            | inl h ↦
                let (node, parent, parent', held, childless, under, removed, pruned) =
                  delete_ok env l s v path r e h in
                prunes path _ node parent parent' h held childless under removed pruned
            | inr h ↦ refuses _ _ h (delete_failed path r e h)
          ];
        }

    write_kept : (path content : Bytes) → (Store.write env s path content).0.proc_root ≡ s.proc_root
    write_kept path content = elim (write-cases env s path content) [
      | inl (_, e, _) ↦ e
      | inr r ↦ ap (λ (t : Store env). t.proc_root) r.stored
    ]

    write_refused :
        (path content : Bytes)
        → is_ok (Store.write env s path content).1 ≡ false
        → (k : Bytes) → view env (Store.write env s path content).0 k ≡ view env s k
    write_refused path content h k = elim (write-cases env s path content) [
      | inl (e, f, _) ↦ view-same env s _ e f k
      | inr r ↦
          write-unchanged env s path content l r
            (λ z. absurd (
              ground (
                arith,
                r.told (
                    ap (λ (w : env.persist_db.State × Reply). w.1)
                      (l.leveldb.put_write s.persist path _)
                    ∙ z),
              )))
            k
    ]

    write_proc :
        (path content : Bytes)
        → under_proc env s path ≡ true
        → (k : Bytes) → view env (Store.write env s path content).0 k ≡ view env s k
    write_proc path content h k = elim (write-cases env s path content) [
      | inl (e, f, _) ↦ view-same env s _ e f k
      | inr r ↦ absurd (ground (arith, r.outside))
    ]

    pub wrote : (path content : Bytes) → Applied (write path content) s
    unfolding apply
    wrote path content = record {
      result = Store.write env s path content;
      ran = refl;
      good = write-IsStore env l s v path content;
      kept = write_kept path content;
      does = elim (Bool-cases (under_proc env s path)) [
        | inl p ↦ hands_on path content _ p (write_proc path content p)
        | inr p ↦ elim (Bool-cases (is_ok (Store.write env s path content).1)) [
          | inl h ↦
              let (node, held, updated) = write_ok env l s v path content p h in
              updates path content _ node h p held updated
          | inr h ↦ refuses _ _ h (write_refused path content h)
        ]
      ];
    }

    one : (c : Call) → Applied c s
    one (create path content flags sid) = created path content flags sid
    one (delete path) = deleted path
    one (write path content) = wrote path content

  -- Where the databases and the codec keep their laws, any calls on a store whose nodes are a tree
  -- all return, the nodes stay a tree, and the calls with their statuses are a run of the abstract
  -- machine from the tree before to the tree behind.
  pub apply_all-Runs :
      IsEnv env
      → (calls : List Call) (s : Store env) → IsStore env s
      → (t : Store env) × (sts : List Status) × (apply_all calls s ≡ returns (t, sts))
        × IsStore env t
        × Runs (under_proc env s) (view env s) calls sts (view env t)
  unfolding apply_all
  apply_all-Runs l [] s v = (s, [], refl, v, none_left (view env s))
  apply_all-Runs l (c ∷ calls) s v =
      let a : Applied c s = one l s v c in
      let (t, sts, e, good, runs) = apply_all-Runs l calls a.result.0 a.good in
      (
        t,
        a.result.1 ∷ sts,
        rw (a.ran, e, apply_all) refl,
        good,
        then_runs c a.result.1 calls sts a.does (
            subst
              (λ r. Runs (λ p. env.starts_with p r) (view env a.result.0) calls sts (view env t))
              a.kept runs),
      )
