-- ===== src/Replica/Reload.antt =====
-- onLoadSnapshot gives every ephemeral node of the database its session again.
use pyxis.Prelude.{
  ℕ, Bytes, true, List, [], ◌∷◌, some, ◌≡◌, refl, sym, ap, subst, ◌∙◌, arith, Bool-cases,
  Option-cases, inl, inr, fun_ext, if◌then◌else◌, nothing, Every, also,
}
use pyxis.Maps.{find, set_insert}
use pyxis.Maps.Keys.{nat_key, bytes_key, bytes_lt}
use pyxis.Common.Status.{is_ok}
use pyxis.Db.{Env, SavedSession}
use pyxis.Db.Laws.{IsEnv}
use pyxis.Node.{Node, is_ephemeral}
use pyxis.Store.{Run, returns, aborts}
use pyxis.Store.View.{view}
use pyxis.Store.Rows.{rows-view}
use pyxis.Store.Saved.{add_session, tree_loop, session_loop, and_run}
use pyxis.Sessions.{Session, new_session, bind_node, to_protobuf}
use pyxis.Sessions.Manager.{get_session}
use pyxis.Server.{Server}
use pyxis.Server.Calls.{put_session}
use pyxis.Server.Commands.{add_to_manager}
use pyxis.Server.Recovery.{walk_session_func, walk_tree_func, bind_at, default_timeout}
use pyxis.Server.Holds.{
  Holds, Holds-chain, Holds-check, of_result, of_none, Holds-test, weakened, Run-cases, held_by,
  Holds-if,
}
use pyxis.Replica.{owner, set_at, add_owner, IsKeyedMap}
use pyxis.Replica.Calm.{put_session-owned}
use pyxis.Replica.Sessions.{owners, add-owners}
use pyxis.Replica.Keyed.{set_at-IsKeyed, add_owner-IsKeyed}
use pyxis.Replica.Owns.{Owns, Owns-bind, Owns-bound, Owns-add_owner}
use pyxis.Paths.{slash}

abbrev pub Rows : Type 0
Rows = List (Bytes × Bytes)

-- The rows that WalkTree takes.
unfoldable pub walked : Rows → Rows
walked [] = []
walked ((k, b) ∷ rows) =
    let rest = walked rows in if bytes_lt k (slash ∷ 255 ∷ []) then (k, b) ∷ rest else []

Holds-and_run :
    {A : Type 0} (env : Env) (P Q : A → Type 0) (r : Run A) (f : A → Run A)
    → Holds P r
    → ((a : A) → P a → Holds Q (f a))
    → Holds Q (and_run env r f)
unfolding and_run
Holds-and_run env P Q (returns _) f (of_result a p) k = k a p
Holds-and_run env P Q aborts f of_none k = of_none

module _ (env : Env) (l : IsEnv env) (add_ms : ℕ → ℕ → ℕ) (now : ℕ) where
  -- The nodes are the same, and each session stands at its id and owns what it owned.
  pub record Later (s t : Server env) : Type 0 where
    pub root_same : t.store.proc_root ≡ s.store.proc_root
    pub nodes_same : (k : Bytes) → view env t.store k ≡ view env s.store k
    pub keyed : IsKeyedMap (owners t.manager)
    pub owns : (i : ℕ) (p : Bytes) → Owns (owners s.manager) i p → Owns (owners t.manager) i p

  pub Later-trans : (s t u : Server env) → Later s t → Later t u → Later s u
  Later-trans s t u h g = record {
    root_same = g.root_same ∙ h.root_same;
    nodes_same = λ k. g.nodes_same k ∙ h.nodes_same k;
    keyed = g.keyed;
    owns = λ i p o. g.owns i p (h.owns i p o);
  }

  same_Later : (s : Server env) → IsKeyedMap (owners s.manager) → Later s s
  same_Later s keyed = record {
    root_same = refl;
    nodes_same = λ k. refl;
    keyed = keyed;
    owns = λ i p o. o;
  }

  add-Later :
      (s : Server env) (sid timeout : ℕ)
      → IsKeyedMap (owners s.manager)
      → Holds
          (λ (t : Server env). Later s t × (owners t.manager ≡ add_owner sid (owners s.manager)))
          (add_to_manager env add_ms now s (new_session now sid timeout))
  unfolding add_to_manager add_session
  add-Later s sid timeout keyed =
      let row : SavedSession = to_protobuf (new_session now sid timeout) in
      let (m, e, w) = add-owners add_ms now s.manager sid timeout in
      let same : owners m ≡ add_owner sid (owners s.manager) = fun_ext w in
      rw (e, add_to_manager)
        (Holds-check
          (λ (t : Server env). Later s t × (owners t.manager ≡ add_owner sid (owners s.manager)))
          (is_ok (add_session env s.store row).1) _
          (of_result (record s { store = (add_session env s.store row).0; manager = m })
            (
              record {
                root_same = refl;
                nodes_same = λ k. (rows-view env l s.store row 0 0 k).0;
                keyed =
                    subst IsKeyedMap (sym same) (add_owner-IsKeyed sid (owners s.manager) keyed);
                owns = λ i p o.
                    subst (λ f. Owns f i p) (sym same)
                      (Owns-add_owner (owners s.manager) sid i p o);
              },
              same,
            )))

  bind-Later :
      (s : Server env) (sid : ℕ) (x : Session) (path : Bytes)
      → IsKeyedMap (owners s.manager)
      → find sid s.manager.sessions ≡ some x
      → (let t = put_session env now s (bind_node x path) in
          Later s t × Owns (owners t.manager) sid path)
  unfolding bind_node
  bind-Later s sid x path keyed h =
      let t : Server env = put_session env now s (bind_node x path) in
      let f = owners s.manager in
      let at : x.sid ≡ sid = keyed sid x.sid x.nodes (ap owner h) in
      let here : f x.sid ≡ some (x.sid, x.nodes) = ap f at ∙ ap owner h in
      let same : owners t.manager ≡ set_at x.sid (some (x.sid, set_insert path x.nodes)) f =
        ap (λ r. r.owned) (put_session-owned env now s (bind_node x path)) in
      (
        record {
          root_same = refl;
          nodes_same = λ k. refl;
          keyed = subst IsKeyedMap (sym same) (set_at-IsKeyed x.sid _ f keyed);
          owns = λ i p o.
              subst (λ g. Owns g i p) (sym same) (Owns-bind f x.sid x.nodes here path p i o);
        },
        subst (λ g. Owns g sid path) (sym same)
            (subst (λ i. Owns (set_at x.sid (some (x.sid, set_insert path x.nodes)) f) i path) at
              (Owns-bound f x.sid x.nodes here path)),
      )

  bind_at-Later :
      (s : Server env) (sid : ℕ) (path : Bytes)
      → IsKeyedMap (owners s.manager)
      → Holds
          (λ (t : Server env). Later s t × Owns (owners t.manager) sid path)
          (bind_at env add_ms now s sid path)
  unfolding bind_at
  bind_at-Later s sid path keyed = elim (Option-cases (get_session s.manager sid)) [
    | inl h ↦ rw (h, bind_at) of_none
    | inr (x, h) ↦ rw (h, bind_at) (of_result _ (bind-Later s sid x path keyed h))
  ]

  -- Behind walkTreeFunc a node that is ephemeral has its session.
  abbrev Walked : Server env → Bytes → Node → Server env → Type 0
  Walked s path node t =
      Later s t × (is_ephemeral node.flags ≡ true → Owns (owners t.manager) node.sid path)

  walk_tree_func-Walked :
      (s : Server env) (path : Bytes) (node : Node)
      → IsKeyedMap (owners s.manager)
      → Holds (Walked s path node) (walk_tree_func env add_ms now path node (returns s))
  unfolding walk_tree_func
  walk_tree_func-Walked s path node keyed =
      Holds-test (Walked s path node) (is_ephemeral node.flags) _ _
        (λ b. elim (Option-cases (get_session s.manager node.sid)) [
          | inl h ↦ rw h (
              Holds-chain
                (λ (t : Server env).
                  Later s t × (owners t.manager ≡ add_owner node.sid (owners s.manager)))
                (Walked s path node) _ _ (add-Later s node.sid default_timeout keyed)
                (λ t (k, _).
                  weakened (λ (u : Server env). Later t u × Owns (owners u.manager) node.sid path)
                    (Walked s path node) _ (λ u (j, o). (Later-trans s t u k j, λ _. o))
                    (bind_at-Later t node.sid path k.keyed)))
          | inr (x, h) ↦
              let (k, o) = bind-Later s node.sid x path keyed h in rw h (of_result _ (k, λ _. o))
        ])
        (λ b. of_result s (same_Later s keyed, λ e. absurd (ground (arith, b, e))))

  -- The node of a row has its session, if it is ephemeral.
  abbrev pub Homed : Server env → Bytes × Bytes → Type 0
  Homed t (k, b) =
      is_ephemeral (env.parse b).1.flags ≡ true → Owns (owners t.manager) (env.parse b).1.sid k

  abbrev pub Reloaded : Server env → Rows → Server env → Type 0
  Reloaded s rows t = Later s t × Every (Homed t) (walked rows)

  tree_loop_aborts :
      (rows : Rows) → tree_loop env (walk_tree_func env add_ms now) rows aborts ≡ aborts
  unfolding tree_loop walk_tree_func
  tree_loop_aborts [] = refl
  tree_loop_aborts ((k, b) ∷ rows) = ground (arith, tree_loop_aborts rows)

  pub tree_loop-Reloaded :
      (rows : Rows) (s : Server env)
      → IsKeyedMap (owners s.manager)
      → Holds (Reloaded s rows) (tree_loop env (walk_tree_func env add_ms now) rows (returns s))
  unfolding tree_loop walked
  tree_loop-Reloaded [] s keyed = of_result s (same_Later s keyed, nothing)
  tree_loop-Reloaded ((k, b) ∷ rows) s keyed = elim (Bool-cases (bytes_lt k (slash ∷ 255 ∷ []))) [
    | inr z ↦
        let left : walked ((k, b) ∷ rows) ≡ [] = rw (z, walked) refl in
        rw (z, tree_loop)
          (of_result s (same_Later s keyed, subst (Every (Homed s)) (sym left) nothing))
    | inl z ↦
        let node : Node = (env.parse b).1 in
        let taken : walked ((k, b) ∷ rows) ≡ (k, b) ∷ walked rows = rw (z, walked) refl in
        rw (z, tree_loop)
          (elim (Run-cases (walk_tree_func env add_ms now k node (returns s))) [
            | inl a ↦ rw (a, tree_loop_aborts rows) of_none
            | inr (t, a) ↦
                let (later, homed) =
                  held_by (Walked s k node) _ t (walk_tree_func-Walked s k node keyed) a in
                rw a (
                  weakened (Reloaded t rows) (Reloaded s ((k, b) ∷ rows)) _
                    (λ u (j, every). (
                      Later-trans s t u later j,
                      subst (Every (Homed u)) (sym taken)
                          (also (λ e. j.owns node.sid k (homed e)) every),
                    ))
                    (tree_loop-Reloaded rows t later.keyed))
          ])
  ]

  -- A row of a session.
  pub session_loop-Later :
      (rows : Rows) (s : Server env)
      → IsKeyedMap (owners s.manager)
      → Holds (Later s) (session_loop env (walk_session_func env add_ms now) rows s)
  unfolding session_loop walk_session_func and_run
  session_loop-Later [] s keyed = of_result s (same_Later s keyed)
  session_loop-Later ((k, b) ∷ rows) s keyed =
      let row : SavedSession = env.parse_session b in
      Holds-if (Later s) _ _ _
        (Holds-if (Later s) _ _ _
          (Holds-and_run env (Later s) (Later s) (walk_session_func env add_ms now row s) _
            (weakened
              (λ (t : Server env).
                Later s t × (owners t.manager ≡ add_owner row.sid (owners s.manager)))
              (Later s) _ (λ t j. j.0) (add-Later s row.sid row.timeout keyed))
            (λ t later.
              weakened (Later t) (Later s) _ (λ u j. Later-trans s t u later j)
                (session_loop-Later rows t later.keyed)))
          of_none)
        (of_result s (same_Later s keyed))
