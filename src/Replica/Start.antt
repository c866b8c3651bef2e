-- ===== src/Replica/Start.antt =====
-- A server on an empty database.
use pyxis.Prelude.{ℕ, Bytes, [], ◌∷◌, ◌≡◌, arith}
use pyxis.Maps.{find}
use pyxis.Maps.Keys.{nat_key}
use pyxis.Db.{Env, Lookup}
use pyxis.Db.Laws.{IsEnv}
use pyxis.Paths.{slash}
use pyxis.Paths.Split.{IsName}
use pyxis.Store.{returns, new_store}
use pyxis.Store.Init.{new_store-IsStore, new_store-view}
use pyxis.Server.{Server}
use pyxis.Replica.{replica_of, find}
use pyxis.Replica.Clean.{IsClean}

-- A server without sessions on a store that is made on an empty database is clean.
pub new_store-IsClean :
    (env : Env) (l : IsEnv env) (persist : env.persist_db.State) (proc : env.proc_db.State) (c : ℕ)
    (name : Bytes)
    → IsName (c ∷ name)
    → ((k : Bytes) → env.persist_db.get persist k ≡ Lookup.not_found)
    → (s : Server env) → new_store env persist proc (slash ∷ c ∷ name) ≡ returns s.store
    → s.manager.sessions ≡ []
    → IsClean env (replica_of env s)
unfolding find
new_store-IsClean env l persist proc c name good empty s h none_yet =
    let (first, persists, only) = new_store-view env l persist proc c name good empty s.store h in
    (
      λ k i nodes e. ground (arith, e, none_yet),
      record {
        good = new_store-IsStore env l persist proc c name good empty s.store h;
        owns = λ p i held. absurd (ground (arith, held, only p, persists));
      },
    )
