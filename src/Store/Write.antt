-- ===== src/Store/Write.antt =====
-- Write: what a successful call needs and does, and what a failing one leaves.
use pyxis.Prelude.{
  ◌+◌, ◌%◌, ◌^◌, Bytes, true, false, [], ◌∷◌, ◌≡◌, ◌≢◌, ◌⊎◌, inl, inr, ap, ◌∙◌, arith, beq,
  if◌then◌else◌, Bool-cases, Option-cases, ltb,
}
use pyxis.Common.Status.{Status, is_ok}
use pyxis.Node
use pyxis.Node.{Node}
use pyxis.Tree.{holds}
use pyxis.Db.{Env, Reply, Op}
use pyxis.Db.Laws.{IsEnv}
use pyxis.Store.{Store, under_proc, get, put, write, serialize_as_string, max_bytes}
use pyxis.Store.View.{view, written, IsOpen, get-view, view-put, view-failed}
use pyxis.Store.Parent.{get-found}

-- The node behind Write: new data, and the next version, which wraps at 2 ^ 64.
abbrev pub rewritten : Node → Bytes → Node
rewritten node content = record node { content = content; version = (node.version + 1) % 2 ^ 64 }

module _ (env : Env) (s : Store env) (path content : Bytes) where
  abbrev pub target : Status × Node
  target = get env s path Node.empty

  abbrev pub update : Bytes
  update = serialize_as_string env (rewritten target.1 content)

  -- The checks that a call has passed when it calls leveldb's Put.
  pub record Reached : Type 0 where
    pub outside : under_proc env s path ≡ false
    pub found : is_ok target.0 ≡ true
    pub stored :
        (write env s path content).0
        ≡ record s { persist = (env.persist_db.put s.persist path update).0 }
    pub reply :
        is_ok (write env s path content).1 ≡ true
        → (env.persist_db.put s.persist path update).1 ≡ Reply.done
    pub told :
        (env.persist_db.put s.persist path update).1 ≡ Reply.done
        → is_ok (write env s path content).1 ≡ true

  -- A call leaves the persistent database alone, or calls its Put; a call that succeeds outside
  -- the proc root does the second.
  pub write-cases :
      (((write env s path content).0.persist ≡ s.persist)
        × ((write env s path content).0.proc_root ≡ s.proc_root)
        × (under_proc env s path ≡ false → is_ok (write env s path content).1 ≡ false))
      ⊎ Reached
  unfolding write put
  write-cases = elim (Bool-cases (under_proc env s path)) [
    | inl under ↦ inl (ground arith, ground arith, λ h. ground arith)
    | inr out ↦ elim (Bool-cases (is_ok target.0)) [
      | inr e ↦ inl (ground arith, ground arith, λ h. ground arith)
      | inl e ↦ elim (Option-cases (env.serialize (rewritten target.1 content))) [
        | inl u ↦ inl (ground arith, ground arith, λ h. ground arith)
        | inr (b, u) ↦
            elim (Bool-cases (ltb (max_bytes env) (env.byte_size (rewritten target.1 content)))) [
              | inl big ↦ inl (ground arith, ground arith, λ h. ground arith)
              | inr fits ↦ inr (record {
                outside = out;
                found = e;
                stored = ground (arith, get-found env s path Node.empty e);
                reply = λ h. ground (arith, get-found env s path Node.empty e);
                told = λ h. ground (arith, get-found env s path Node.empty e);
              })
            ]
      ]
    ]
  ]

  module _ (l : IsEnv env) (r : Reached) where
    pub write-IsOpen : IsOpen env s path
    write-IsOpen = (r.outside, get-found env s path Node.empty r.found)

    pub target-view : view env s path ≡ holds target.1
    target-view = rw (← get-view env s path Node.empty write-IsOpen, r.found)

    -- leveldb's Put is the batch of one.
    pub stored-written : (write env s path content).0 ≡ written env s (Op.put path update ∷ [])
    stored-written =
        r.stored
        ∙ ap (λ (w : env.persist_db.State × Reply). record s { persist = w.0 })
            (l.leveldb.put_write s.persist path update)

    pub write-view :
        (env.persist_db.write s.persist (Op.put path update ∷ [])).1 ≡ Reply.done
        → (k : Bytes)
        → view env (write env s path content).0 k
          ≡ (if beq path k then holds (rewritten target.1 content) else view env s k)
    write-view done k =
        rw stored-written (view-put env l s path (rewritten target.1 content) k write-IsOpen done)

    pub write-unchanged :
        (env.persist_db.write s.persist (Op.put path update ∷ [])).1 ≢ Reply.done
        → (k : Bytes) → view env (write env s path content).0 k ≡ view env s k
    write-unchanged failed k =
        rw stored-written (view-failed env l s (Op.put path update ∷ []) k failed)
