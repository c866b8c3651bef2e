-- ===== src/Store/Rows.antt =====
-- The rows beside the nodes: they do not touch the tree, and the commit index is read back.
use pyxis.Prelude.{
  ℕ, ◌^◌, ◌<◌, Bytes, true, false, List, [], ◌∷◌, ◌≡◌, refl, ap, ◌∙◌, arith, inl, inr, beq, beq_iff,
  if◌then◌else◌, beq_refl,
}
use pyxis.Words.{le_bytes, length-le_bytes, of_le-le_bytes}
use pyxis.Common.Status
use pyxis.Common.Status.{Status, is_ok}
use pyxis.Paths.{is_valid_path, starts_at_root}
use pyxis.Db.{Env, Lookup, Op, SavedSession, Reply-cases}
use pyxis.Db.Laws.{IsEnv, after}
use pyxis.Store.{Store, returns}
use pyxis.Store.View.{view}
use pyxis.Store.Saved.{
  session_key, add_session, remove_session, set_commit_index, get_commit_index, commit_prefix,
}

other-beq : (j k : Bytes) → is_valid_path j ≡ false → is_valid_path k ≡ true → beq j k ≡ false
other-beq j k h w = ground (arith, beq_iff j k)

module _ (env : Env) (l : IsEnv env) (s : Store env) where
  -- Whether a batch that does not name `k` is written or fails, a read of `k` is as before.
  get-unnamed :
      (ops : List Op) (k : Bytes)
      → after k ops (env.persist_db.get s.persist k) ≡ env.persist_db.get s.persist k
      → env.persist_db.get (env.persist_db.write s.persist ops).0 k ≡ env.persist_db.get s.persist k
  get-unnamed ops k h = elim (Reply-cases (env.persist_db.write s.persist ops).1) [
    | inl wrote ↦ l.leveldb.get-write s.persist ops k wrote ∙ h
    | inr (m, failed) ↦ l.leveldb.failed_write s.persist ops k (λ z. cc)
  ]

  -- A write at a key that is not a path leaves every node.
  view-put_other :
      (j v k : Bytes)
      → is_valid_path j ≡ false
      → view env (record s { persist = (env.persist_db.put s.persist j v).0 }) k ≡ view env s k
  unfolding view
  view-put_other j v k h =
      let kept : is_valid_path k ≡ true
          → env.persist_db.get (env.persist_db.write s.persist (Op.put j v ∷ [])).0 k
            ≡ env.persist_db.get s.persist k =
        λ w. get-unnamed (Op.put j v ∷ []) k (ground (arith, other-beq j k h w)) in
      rw (l.leveldb.put_write s.persist j v) (ground arith)

  view-delete_other :
      (j k : Bytes)
      → is_valid_path j ≡ false
      → view env (record s { persist = (env.persist_db.delete s.persist j).0 }) k ≡ view env s k
  unfolding view
  view-delete_other j k h =
      let kept : is_valid_path k ≡ true
          → env.persist_db.get (env.persist_db.write s.persist (Op.delete j ∷ [])).0 k
            ≡ env.persist_db.get s.persist k =
        λ w. get-unnamed (Op.delete j ∷ []) k (ground (arith, other-beq j k h w)) in
      rw (l.leveldb.delete_write s.persist j) (ground arith)

  session_key-other : (sid : ℕ) → is_valid_path (session_key sid) ≡ false
  unfolding session_key is_valid_path starts_at_root
  session_key-other sid = refl

  commit_prefix-other : is_valid_path commit_prefix ≡ false
  unfolding is_valid_path starts_at_root
  commit_prefix-other = refl

  -- Adding or removing a session's row and setting the commit index, whether they succeed or fail,
  -- leave the node at every path as it was.
  pub rows-view :
      (row : SavedSession) (sid index : ℕ) (k : Bytes)
      → (view env (add_session env s row).0 k ≡ view env s k)
        × (view env (remove_session env s sid).0 k ≡ view env s k)
        × (view env (set_commit_index env s index).0 k ≡ view env s k)
  unfolding add_session remove_session set_commit_index
  rows-view row sid index k = (
    view-put_other (session_key row.sid) (env.serialize_session row) k (session_key-other row.sid),
    view-delete_other (session_key sid) k (session_key-other sid),
    view-put_other commit_prefix (le_bytes 8 index) k commit_prefix-other,
  )

  -- GetCommitIndex behind a successful SetCommitIndex of a 64-bit index does not abort and returns
  -- that index.
  pub get-set_commit_index :
      (index : ℕ)
      → index < 2 ^ 64
      → is_ok (set_commit_index env s index).1 ≡ true
      → get_commit_index env (set_commit_index env s index).0 ≡ returns (Status.ok, index)
  unfolding set_commit_index get_commit_index
  get-set_commit_index index h w =
      let stored : env.persist_db.get
            (env.persist_db.write s.persist (Op.put commit_prefix (le_bytes 8 index) ∷ [])).0
            commit_prefix
          ≡ Lookup.value (le_bytes 8 index) =
        l.leveldb.get-write s.persist _ commit_prefix
          (ground (arith, l.leveldb.put_write s.persist commit_prefix (le_bytes 8 index)))
        ∙ ap
            (λ b.
              if b
              then Lookup.value (le_bytes 8 index)
              else env.persist_db.get s.persist commit_prefix)
            (beq_refl commit_prefix) in
      rw (l.leveldb.put_write s.persist commit_prefix (le_bytes 8 index), stored)
        (ground (arith, length-le_bytes 8 index, of_le-le_bytes 8 index h))
