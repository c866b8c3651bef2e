-- ===== src/Client/Cache.antt =====
-- client/cache.cc: the nodes that were read last, for the time without a connection.
use pyxis.Prelude.{
  Bytes, codes, Bool, true, ◌++◌, Option, none, some, ◌≡◌, refl, sym, ap, ◌∙◌, arith, if◌then◌else◌,
}
use pyxis.Common.Status
use pyxis.Common.Status.{Status, is_ok}
use pyxis.Node.{Node}
use pyxis.Db.{Env, Lookup}
use pyxis.Db.Laws.{IsEnv, get-put}
use pyxis.Store.{Run, returns, aborts}
use pyxis.Store.Saved.{internal_status}

-- The cache's database is the persistent one of its own Env. It is none before Init.
module _ (env : Env) where
  abbrev pub State : Type 0
  State = Option env.persist_db.State

  parsed : Bytes → Bool × Node → Status × Node
  parsed path (ok, node) =
      (if ok then Status.ok else Status.internal (codes "parse node:" ++ path), node)

  looked_up : Bytes → Node → Lookup → Status × Node
  unfolding parsed
  looked_up path node (Lookup.value b) = parsed path (env.parse b)
  looked_up path node Lookup.not_found = (Status.not_found path, node)
  looked_up path node (Lookup.failed e) = (Status.internal e, node)

  -- Read, with the node that the caller passes and what is left in it.
  unfoldable pub read : State → Bytes → Node → Run (Status × Node)
  unfolding looked_up
  read none path node = aborts
  read (some db) path node = returns (looked_up path node (env.persist_db.get db path))

  -- Write.
  unfoldable pub write : State → Bytes → Node → Run (State × Status)
  write none path node = aborts
  write (some db) path node = returns (elim (env.serialize node) [
    | none ↦ (some db, Status.internal (codes "serialize node:" ++ path))
    | some b ↦ let (d, r) = env.persist_db.put db path b in (some d, internal_status r)
  ])

  -- On an open cache Write does not abort, and where it succeeds Read gives the node that was written.
  pub read-write_cache :
      IsEnv env
      → (db : env.persist_db.State) (path : Bytes) (node before : Node)
      → (s : State) × (st : Status) × (write (some db) path node ≡ returns (s, st))
        × (is_ok st ≡ true → read s path before ≡ returns (Status.ok, node))
  unfolding write read looked_up parsed
  read-write_cache l db path node before =
      let (b, w, p) = l.round_trip node in
      let (d, r) = env.persist_db.put db path b in
      (
        some d,
        internal_status r,
        rw w refl,
        λ h.
            ap (λ g. returns (looked_up path before g))
              (get-put env.persist_db l.leveldb db path b (ground arith))
            ∙ rw p refl,
      )

  -- On an open cache, what Write stored with success is what Read gives.
  pub read_back :
      IsEnv env
      → (db : env.persist_db.State) (path : Bytes) (node before : Node) (s : State) (st : Status)
      → write (some db) path node ≡ returns (s, st)
      → is_ok st ≡ true
      → read s path before ≡ returns (Status.ok, node)
  read_back l db path node before s st h good =
      let (s0, st0, w, r) = read-write_cache l db path node before in
      let both : returns (s0, st0) ≡ returns (s, st) = sym w ∙ h in cc (both, r (cc (both, good)))
