-- ===== src/Store/Saved.antt =====
-- store.cc: the rows of sessions, the commit index, and the walks over the database.
use pyxis.Prelude.{
  ℕ, ◌+◌, Bytes, codes, List, [], ◌∷◌, ◌++◌, if◌then◌else◌, ◌==◌, length, take, drop, ◌&&◌,
}
use pyxis.Words.{le_bytes, of_le}
use pyxis.Maps.Keys.{bytes_lt}
use pyxis.Common.Status
use pyxis.Common.Status.{Status}
use pyxis.Paths.{root, slash}
use pyxis.Node.{Node}
use pyxis.Db.{Env, Lookup, Reply, SavedSession}
use pyxis.Store.{Store, Run, returns, aborts}

-- SESSION_PREFIX.
abbrev pub session_prefix : Bytes
session_prefix = codes "ss"

-- COMMIT_PREFIX.
abbrev pub commit_prefix : Bytes
commit_prefix = codes "commit"

-- The key of a session's row: the prefix and the eight bytes of the id.
unfoldable pub session_key : ℕ → Bytes
session_key sid = session_prefix ++ le_bytes 8 sid

-- leveldb's status as a result.
abbrev pub internal_status : Reply → Status
internal_status Reply.done = Status.ok
internal_status (Reply.failed e) = Status.internal e

module _ (env : Env) where
  -- AddSession.
  unfoldable pub add_session : Store env → SavedSession → Store env × Status
  unfolding session_key
  add_session s row =
      let (p, r) = env.persist_db.put s.persist (session_key row.sid) (env.serialize_session row) in
      (record s { persist = p }, internal_status r)

  -- RemoveSession.
  unfoldable pub remove_session : Store env → ℕ → Store env × Status
  unfolding session_key
  remove_session s sid =
      let (p, r) = env.persist_db.delete s.persist (session_key sid) in
      (record s { persist = p }, internal_status r)

  -- SetCommitIndex.
  unfoldable pub set_commit_index : Store env → ℕ → Store env × Status
  set_commit_index s index =
      let (p, r) = env.persist_db.put s.persist commit_prefix (le_bytes 8 index) in
      (record s { persist = p }, internal_status r)

  index_of : Lookup → Run (Status × ℕ)
  index_of (Lookup.value b) = if length b == 8 then returns (Status.ok, of_le b) else aborts
  index_of Lookup.not_found = returns (Status.ok, 0)
  index_of (Lookup.failed e) = returns (Status.internal e, 0)

  -- GetCommitIndex, whose CHECK on the size can fail.
  unfoldable pub get_commit_index : Store env → Run (Status × ℕ)
  unfolding index_of
  get_commit_index s = index_of (env.persist_db.get s.persist commit_prefix)

  module _ {ℓ} {A : Type ℓ} where
    -- The loop of WalkTree, with the node that every round parses into.
    unfoldable pub tree_loop : (Bytes → Node → A → A) → List (Bytes × Bytes) → A → A
    tree_loop f [] a = a
    tree_loop f ((k, b) ∷ rows) a =
        let rest = tree_loop f rows (f k (env.parse b).1 a) in
        if bytes_lt k (slash ∷ 255 ∷ []) then rest else a

    -- WalkTree, for a callback that changes a state.
    unfoldable pub walk_tree : Store env → (Bytes → Node → A → A) → A → A × Status
    unfolding tree_loop
    walk_tree s f a = (
      tree_loop f (env.persist_db.seek s.persist root) a,
      internal_status (env.persist_db.scan_status s.persist),
    )

    unfoldable pub and_run : Run A → (A → Run A) → Run A
    and_run (returns a) f = f a
    and_run aborts f = aborts

    -- The loop of WalkSessions, with its CHECKs on the key and on the id in the row.
    unfoldable pub session_loop : (SavedSession → A → Run A) → List (Bytes × Bytes) → A → Run A
    unfolding and_run
    session_loop f [] a = returns a
    session_loop f ((k, b) ∷ rows) a =
        let rest = and_run (f (env.parse_session b) a) (session_loop f rows) in
        if bytes_lt k (session_prefix ++ 255 ∷ 255 ∷ 255 ∷ 255 ∷ 255 ∷ 255 ∷ 255 ∷ 255 ∷ [])
        then (if length k == length session_prefix + 8
              && of_le (take 8 (drop 2 k)) == (env.parse_session b).sid
            then rest
            else aborts)
        else returns a

    unfoldable pub with_status : Status → Run A → Run (A × Status)
    with_status st (returns a) = returns (a, st)
    with_status st aborts = aborts

    -- WalkSessions, for a callback that changes a state or aborts.
    unfoldable pub walk_sessions : Store env → (SavedSession → A → Run A) → A → Run (A × Status)
    unfolding session_loop with_status
    walk_sessions s f a =
        with_status (internal_status (env.persist_db.scan_status s.persist))
          (session_loop f (env.persist_db.seek s.persist session_prefix) a)
