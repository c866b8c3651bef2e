-- ===== src/Replica/Loaded.antt =====
-- A server that loads a snapshot whose nodes are a tree gives every ephemeral node its session.
use pyxis.Prelude.{
  ℕ, Bytes, true, false, List, [], ◌∷◌, ◌≡◌, refl, sym, ap, subst, ◌∙◌, arith, ==_iff, Every, also,
}
use mathlib.Core.List.{Memᴰ}
use pyxis.Maps.Keys.{bytes_key, bytes_lt}
use pyxis.Common.Status.{is_ok}
use pyxis.Db.{Env, Lookup}
use pyxis.Db.Laws.{IsEnv}
use pyxis.Paths.{is_valid_path, root, slash, invalid_char}
use pyxis.Store.{returns, Store}
use pyxis.Store.View.{view, holds-row}
use pyxis.Store.Invariant.{IsStore, same-IsStore}
use pyxis.Tree.{holds}
use pyxis.Common.Status.{Status}
use pyxis.Node.{Node, is_ephemeral}
use pyxis.Store.{Store, Run, aborts}
use pyxis.Store.Saved.{walk_sessions, walk_tree, get_commit_index, session_prefix, with_status}
use pyxis.Server.{Server}
use pyxis.Server.Recovery.{on_load_snapshot, walk_session_func}
use pyxis.Server.Holds.{Holds, Holds-chain, Holds-check, Holds-after, held_by, of_result, of_none}
use pyxis.Replica.{replica_of, IsKeyed}
use pyxis.Replica.Clean.{IsClean}
use pyxis.Replica.Owns.{Owns}
use pyxis.Replica.Sessions.{owners}
use pyxis.Replica.Sweep.{held_node}
use pyxis.Replica.Reload.{
  Later, Reloaded, Homed, tree_loop-Reloaded, session_loop-Later, Rows, walked,
}
use pyxis.Server.Recovery.{on_load_snapshot}
use pyxis.Node.{Node}

-- Rows in the order of their keys.
pub data Ascends : Rows → Type 0 where
  ends : Ascends []
  below :
      {k b : Bytes} {rows : Rows}
      → Every (λ (r : Bytes × Bytes). bytes_lt k r.0 ≡ true) rows
      → Ascends rows
      → Ascends ((k, b) ∷ rows)

bytes_lt_trans : (a b c : Bytes) → bytes_lt a b ≡ true → bytes_lt b c ≡ true → bytes_lt a c ≡ true
unfolding bytes_lt
bytes_lt_trans a [] c h g = absurd (ground (arith, h))
bytes_lt_trans a (y ∷ b) [] h g = absurd (ground (arith, g))
bytes_lt_trans [] (y ∷ b) (z ∷ c) h g = refl
bytes_lt_trans (x ∷ a) (y ∷ b) (z ∷ c) h g =
    ground (arith, h, g, bytes_lt_trans a b c, ==_iff x y, ==_iff y z, ==_iff x z)

-- A valid path lies between the root and the end of WalkTree.
path-range :
    (p : Bytes)
    → is_valid_path p ≡ true
    → (bytes_lt p root ≡ false) × (bytes_lt p (slash ∷ 255 ∷ []) ≡ true)
unfolding is_valid_path bytes_lt invalid_char
path-range [] h = absurd (ground (arith, h))
path-range (c ∷ []) h = (ground (arith, h), ground (arith, h))
path-range (c ∷ d ∷ p) h = (ground (arith, h), ground (arith, h))

Every-mem : {A : Type 0} (P : A → Type 0) (l : List A) (x : A) → Every P l → Memᴰ x l → P x
Every-mem P [] x h m = elim m [ ]
Every-mem P (y ∷ l) x (also p h) (Memᴰ.head e) = subst P (sym e) p
Every-mem P (y ∷ l) x (also p h) (Memᴰ.tail m) = Every-mem P l x h m

walked-mem :
    (rows : Rows) (k b : Bytes)
    → Ascends rows
    → bytes_lt k (slash ∷ 255 ∷ []) ≡ true
    → Memᴰ (k, b) rows
    → Memᴰ (k, b) (walked rows)
unfolding walked
walked-mem [] k b h lt m = elim m [ ]
walked-mem ((j, c) ∷ rows) k b (below every h) lt (Memᴰ.head e) =
    let z : bytes_lt j (slash ∷ 255 ∷ []) ≡ true =
      subst (λ q. bytes_lt q (slash ∷ 255 ∷ []) ≡ true) (ap (λ (r : Bytes × Bytes). r.0) e) lt in
    rw (z, walked) (Memᴰ.head e)
walked-mem ((j, c) ∷ rows) k b (below every h) lt (Memᴰ.tail m) =
    let z : bytes_lt j (slash ∷ 255 ∷ []) ≡ true =
      bytes_lt_trans j k (slash ∷ 255 ∷ [])
        (Every-mem (λ (r : Bytes × Bytes). bytes_lt j r.0 ≡ true) rows (k, b) every m) lt in
    rw (z, walked) (Memᴰ.tail (walked-mem rows k b h lt m))

Holds-with_status :
    {A : Type 0} (env : Env) (P : A → Type 0) (st : Status) (r : Run A)
    → Holds P r
    → Holds (λ (x : A × Status). P x.0) (with_status env st r)
unfolding with_status
Holds-with_status env P st (returns _) (of_result a p) = of_result (a, st) p
Holds-with_status env P st aborts of_none = of_none

module _ (env : Env) (l : IsEnv env)
    (ordered : (d : env.persist_db.State) → Ascends (env.persist_db.seek d root))
    (complete : (d : env.persist_db.State) (k b : Bytes)
      → env.persist_db.get d k ≡ Lookup.value b
      → bytes_lt k root ≡ false
      → Memᴰ (k, b) (env.persist_db.seek d root))
    (add_ms : ℕ → ℕ → ℕ) (now : ℕ) where
  -- A node that is held is among the rows that WalkTree takes.
  held-walked :
      (s : Store env) (p : Bytes) (n : Node)
      → view env s p ≡ holds n
      → (b : Bytes) × Memᴰ (p, b) (walked (env.persist_db.seek s.persist root))
        × ((env.parse b).1 ≡ n)
  held-walked s p n h =
      let (valid, (b, read, parsed)) = holds-row env s p n h in
      let (low, high) = path-range p valid in
      (
        b,
        walked-mem (env.persist_db.seek s.persist root) p b (ordered s.persist) high
            (complete s.persist p b read low),
        parsed,
      )

  Reloaded-IsClean :
      (s u t : Server env)
      → IsStore env s.store
      → Later env l add_ms now s u
      → Reloaded env l add_ms now u (env.persist_db.seek u.store.persist root) t
      → IsClean env (replica_of env t) × ((k : Bytes) → view env t.store k ≡ view env s.store k)
  Reloaded-IsClean s u t v first (second, every) =
      let same : (k : Bytes) → view env t.store k ≡ view env s.store k =
        λ k. second.nodes_same k ∙ first.nodes_same k in
      (
        (
          second.keyed,
          record {
            good = same-IsStore env s.store t.store (second.root_same ∙ first.root_same) same v;
            owns = λ p i held.
                let (n, e, ephemeral, at) = held_node (view env t.store p) i held in
                let (b, taken, parsed) = held-walked u.store p n (sym (second.nodes_same p) ∙ e) in
                let homed =
                  Every-mem (Homed env l add_ms now t)
                    (walked (env.persist_db.seek u.store.persist root)) (p, b) every taken in
                subst (λ j. Owns (owners t.manager) j p) (ap (λ (m : Node). m.sid) parsed ∙ at)
                  (homed (ap (λ (m : Node). is_ephemeral m.flags) parsed ∙ ephemeral));
          },
        ),
        same,
      )

  sessions_walked :
      (s : Server env)
      → IsKeyed env (replica_of env s)
      → Holds
          (λ (r : Server env × Status). Later env l add_ms now s r.0)
          (walk_sessions env s.store (walk_session_func env add_ms now) s)
  unfolding walk_sessions
  sessions_walked s keyed = Holds-with_status env (Later env l add_ms now s) _ _ (
      session_loop-Later env l add_ms now (env.persist_db.seek s.store.persist session_prefix) s
        keyed)

  loaded :
      (s : Server env)
      → IsStore env s.store
      → IsKeyed env (replica_of env s)
      → Holds
          (λ (r : Server env × ℕ).
            IsClean env (replica_of env r.0)
            × ((k : Bytes) → view env r.0.store k ≡ view env s.store k))
          (on_load_snapshot env add_ms now s)
  unfolding on_load_snapshot walk_tree
  loaded s v keyed =
      let P : Server env × ℕ → Type 0 = λ r.
        IsClean env (replica_of env r.0)
        × ((k : Bytes) → view env r.0.store k ≡ view env s.store k) in
      Holds-chain (λ (r : Server env × Status). Later env l add_ms now s r.0) P _ _
        (sessions_walked s keyed)
        (λ r first. Holds-check P (is_ok r.1) _ (
          Holds-chain (Reloaded env l add_ms now r.0 (env.persist_db.seek r.0.store.persist root)) P
            _ _
            (tree_loop-Reloaded env l add_ms now (env.persist_db.seek r.0.store.persist root) r.0
              first.keyed)
            (λ t second. Holds-check P _ _ (
              Holds-after P (get_commit_index env t.store) _ (λ i.
                Holds-check P (is_ok i.0) _
                  (of_result (t, i.1) (Reloaded-IsClean s r.0 t v first second)))))))

  -- onLoadSnapshot, on a store whose nodes are a tree and on sessions that stand at their ids, where
  -- it ends without a failed CHECK: it leaves the nodes as they are, every session at its id, and
  -- every ephemeral node among the nodes of its session. leveldb and the codecs keep their laws, and
  -- an iterator that seeks the root yields every row from there on, in ascending order.
  pub on_load_snapshot-IsClean :
      (s t : Server env) (index : ℕ)
      → IsStore env s.store
      → IsKeyed env (replica_of env s)
      → on_load_snapshot env add_ms now s ≡ returns (t, index)
      → IsClean env (replica_of env t) × ((k : Bytes) → view env t.store k ≡ view env s.store k)
  on_load_snapshot-IsClean s t index v keyed h =
      let P : Server env × ℕ → Type 0 = λ r.
        IsClean env (replica_of env r.0)
        × ((k : Bytes) → view env r.0.store k ≡ view env s.store k) in
      held_by P _ (t, index) (loaded s v keyed) h
