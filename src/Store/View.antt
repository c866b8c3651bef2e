-- ===== src/Store/View.antt =====
-- The abstract view of a store: which node stands at a path. Get reads it, and a batch changes it
-- at the paths that it names.
use pyxis.Prelude.{
  Bytes, Bool, true, false, not, List, [], ◌∷◌, ◌≡◌, ◌≢◌, ◌⊎◌, refl, ◌∙◌, arith, beq, beq_iff,
  if◌then◌else◌, Bool-cases, ◌||◌, inl, subst, inr,
}
use pyxis.Common.Status
use pyxis.Common.Status.{Status, is_ok, is_not_found}
use pyxis.Paths.{is_valid_path}
use pyxis.Node
use pyxis.Node.{Node}
use pyxis.Db.{Env, Lookup, Reply, Op}
use pyxis.Db.Laws.{IsEnv, after}
use pyxis.Tree.{Slot, vacant, unreadable, holds}
use pyxis.Store.{Store, under_proc, get, serialize_as_string, read}

-- A read that gives no value.
no_value : Lookup → Bool
no_value (Lookup.value b) = false
no_value _ = true

Lookup-cases : (r : Lookup) → (no_value r ≡ true) ⊎ ((b : Bytes) × (r ≡ Lookup.value b))
unfolding no_value
Lookup-cases (Lookup.value b) = inr (b, refl)
Lookup-cases Lookup.not_found = inl refl
Lookup-cases (Lookup.failed e) = inl refl

module _ (env : Env) where
  parsed_node : Bool × Node → Slot
  parsed_node (ok, n) = if ok then holds n else unreadable

  decode : Lookup → Slot
  unfolding parsed_node
  decode (Lookup.value b) = parsed_node (env.parse b)
  decode Lookup.not_found = vacant
  decode (Lookup.failed e) = unreadable

  -- The node at a path, in the persistent database.
  unfoldable pub view : Store env → Bytes → Slot
  unfolding decode
  view s p =
      if under_proc env s p || not (is_valid_path p)
      then vacant
      else decode (env.persist_db.get s.persist p)

  -- Paths at which the view can hold a node.
  abbrev pub IsOpen : Store env → Bytes → Type 0
  IsOpen s p = (under_proc env s p ≡ false) × (is_valid_path p ≡ true)

  -- The store behind a batch.
  abbrev pub written : Store env → List Op → Store env
  written s ops = record s { persist = (env.persist_db.write s.persist ops).0 }

  -- The view is that of the persistent database and the proc root.
  pub view-same :
      (s s' : Store env)
      → s'.persist ≡ s.persist
      → s'.proc_root ≡ s.proc_root
      → (p : Bytes) → view s' p ≡ view s p
  unfolding view
  view-same s s' e f p = rw (e, f)

  -- The slot that a result of Get tells of.
  abbrev pub told : Status × Node → Slot
  told (st, n) = if is_ok st then holds n else if is_not_found st then vacant else unreadable

  -- At an open path Get tells what stands there.
  pub get-view :
      (s : Store env) (p : Bytes) (n : Node) → IsOpen s p → told (get env s p n) ≡ view s p
  unfolding get view
  get-view s p n (u, v) = ground arith

  -- Read returns the data of the node that stands at a path.
  pub read-view :
      (s : Store env) (p : Bytes) (n : Node)
      → view s p ≡ holds n
      → read env s p ≡ (Status.ok, n.content)
  unfolding read get view
  read-view s p n h = ground arith

  -- Get finds the node that stands at a path.
  pub get-held :
      (s : Store env) (p : Bytes) (n : Node)
      → view s p ≡ holds n
      → (get env s p Node.empty ≡ (Status.ok, n)) × IsOpen s p
  unfolding get view
  get-held s p n h = (ground (arith, h), (ground (arith, h), ground (arith, h)))

  -- A node that stands at a path is the value of its row.
  pub holds-row :
      (s : Store env) (p : Bytes) (n : Node)
      → view s p ≡ holds n
      → (is_valid_path p ≡ true)
        × ((b : Bytes) × (env.persist_db.get s.persist p ≡ Lookup.value b) × ((env.parse b).1 ≡ n))
  unfolding view decode parsed_node no_value
  holds-row s p n h = (
    ground (arith, h),
    elim (Lookup-cases (env.persist_db.get s.persist p)) [
      | inl missing ↦ absurd (ground (arith, h, missing))
      | inr (b, e) ↦ (b, e, ground (arith, h, e))
    ],
  )

  -- Where nothing stands, Get leaves its node as it was.
  pub get-vacant :
      (s : Store env) (p : Bytes) (n : Node)
      → IsOpen s p
      → view s p ≡ vacant
      → get env s p n ≡ (Status.not_found p, n)
  unfolding get view
  get-vacant s p n (u, v) h = ground arith

module _ (env : Env) (l : IsEnv env) where
  decode-serialize : (n : Node) → decode env (Lookup.value (serialize_as_string env n)) ≡ holds n
  unfolding decode
  decode-serialize n = let (b, w, r) = l.round_trip n in rw w (rw r refl)

  -- The node that a read of `r` at `k` gives.
  unfoldable shown : Store env → Bytes → Lookup → Slot
  shown s k r = if under_proc env s k || not (is_valid_path k) then vacant else decode env r

  shown-now :
      (s : Store env) (k : Bytes) → shown s k (env.persist_db.get s.persist k) ≡ view env s k
  unfolding shown view
  shown-now s k = refl

  shown-IsOpen :
      (s : Store env) (k : Bytes) (r : Lookup) → IsOpen env s k → shown s k r ≡ decode env r
  unfolding shown
  shown-IsOpen s k r (u, v) = rw (u, v)

  shown-set :
      (s : Store env) (j k : Bytes) (n : Node) (r : Lookup) (o : Slot)
      → IsOpen env s j
      → shown s k r ≡ o
      → shown s k (if beq j k then Lookup.value (serialize_as_string env n) else r)
        ≡ (if beq j k then holds n else o)
  shown-set s j k n r o open_j h = elim (Bool-cases (beq j k)) [
    | inl e ↦
        let at : j ≡ k = (beq_iff j k).0 e in
        rw e (shown-IsOpen s k _ (subst (IsOpen env s) at open_j) ∙ decode-serialize n)
    | inr e ↦ rw e h
  ]

  shown-unset :
      (s : Store env) (j k : Bytes) (r : Lookup) (o : Slot)
      → shown s k r ≡ o
      → shown s k (if beq j k then Lookup.not_found else r) ≡ (if beq j k then vacant else o)
  unfolding shown decode
  shown-unset s j k r o h = ground arith

  module _ (s : Store env) (ops : List Op) where
    view-written :
        (k : Bytes)
        → (env.persist_db.write s.persist ops).1 ≡ Reply.done
        → view env (written env s ops) k ≡ shown s k (after k ops (env.persist_db.get s.persist k))
    unfolding view shown
    view-written k ok = rw (l.leveldb.get-write s.persist ops k ok)

    -- A failed batch changes nothing.
    pub view-failed :
        (k : Bytes)
        → (env.persist_db.write s.persist ops).1 ≢ Reply.done
        → view env (written env s ops) k ≡ view env s k
    unfolding view
    view-failed k h = rw (l.leveldb.failed_write s.persist ops k h)

  -- Create's batch sets two nodes of the view.
  pub view-put_put :
      (s : Store env) (p q : Bytes) (n m : Node) (k : Bytes)
      → IsOpen env s p
      → IsOpen env s q
      → (let ops =
            Op.put p (serialize_as_string env n) ∷ Op.put q (serialize_as_string env m) ∷ [] in
          (env.persist_db.write s.persist ops).1 ≡ Reply.done
          → view env (written env s ops) k
            ≡ (if beq q k then holds m else if beq p k then holds n else view env s k))
  view-put_put s p q n m k hp hq ok =
      view-written s _ k ok ∙ shown-set s q k m _ _ hq (shown-set s p k n _ _ hp (shown-now s k))

  -- Delete's batch removes one node and sets another.
  pub view-delete_put :
      (s : Store env) (p q : Bytes) (m : Node) (k : Bytes)
      → IsOpen env s q
      → (let ops = Op.delete p ∷ Op.put q (serialize_as_string env m) ∷ [] in
          (env.persist_db.write s.persist ops).1 ≡ Reply.done
          → view env (written env s ops) k
            ≡ (if beq q k then holds m else if beq p k then vacant else view env s k))
  view-delete_put s p q m k hq ok =
      view-written s _ k ok ∙ shown-set s q k m _ _ hq (shown-unset s p k _ _ (shown-now s k))

  -- Write's single Put sets one node.
  pub view-put :
      (s : Store env) (p : Bytes) (n : Node) (k : Bytes)
      → IsOpen env s p
      → (let ops = Op.put p (serialize_as_string env n) ∷ [] in
          (env.persist_db.write s.persist ops).1 ≡ Reply.done
          → view env (written env s ops) k ≡ (if beq p k then holds n else view env s k))
  view-put s p n k hp ok = view-written s _ k ok ∙ shown-set s p k n _ _ hp (shown-now s k)
