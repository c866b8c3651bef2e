-- ===== src/Replica/Mirror.antt =====
-- The changes of the store that a command makes, seen on the replica.
use pyxis.Prelude.{
  ℕ, Bytes, not, ◌||◌, List, [], ◌∷◌, ◌≡◌, refl, sym, ap, ◌∙◌, subst, arith, Bool-cases, inl, inr,
  if◌then◌else◌, ◌==◌, Bool, true, false,
}
use pyxis.Maps.Keys.{nat_key, bytes_key}
use pyxis.Common.Status
use pyxis.Common.Status.{Status, is_ok, is_not_found}
use pyxis.Db.{Env}
use pyxis.Db.Laws.{IsEnv}
use pyxis.Node
use pyxis.Store.{Store, Run, returns, aborts, get}
use pyxis.Store
use pyxis.Watch
use pyxis.Server.{Server, chain, check}
use pyxis.Server.Calls.{triger, triger_both, delete_node, delete_nodes}
use pyxis.Server.Nodes.{triger-returns, triger_both-returns, deleted-open}
use pyxis.Server.Holds.{held_by, Run-cases}
use pyxis.Replica.{Replica, replica_of, IsKeyed, remove_node, remove_nodes}
use pyxis.Replica.Calm.{Calm, triger-Calm, triger_both-Calm}
use pyxis.Paths.{starts_at_root, split_path}
use pyxis.Watch.{Event}

-- A run whose result is seen through a function.
abbrev pub seen : {A B : Type 0} → (A → B) → Run A → Run B
seen f r = chain r (λ a. returns (f a))

pub seen-chain :
    {A B C D : Type 0} (f : A → B) (g : C → D) (r : Run A) (q : Run B) (k : A → Run C)
    (h : B → Run D)
    → seen f r ≡ q
    → ((a : A) → r ≡ returns a → seen g (k a) ≡ h (f a))
    → seen g (chain r k) ≡ chain q h
seen-chain f g (returns a) q k h e w = w a refl ∙ ap (λ z. chain z h) e
seen-chain f g aborts q k h e w = ap (λ z. chain z h) e

pub seen-check :
    {A B : Type 0} (f : A → B) (b : Bool) (r : Run A) (q : Run B)
    → seen f r ≡ q
    → seen f (check b r) ≡ check b q
seen-check f true r q e = e
seen-check f false r q e = refl

pub seen-if :
    {A B : Type 0} (f : A → B) (b : Bool) (r r' : Run A) (q q' : Run B)
    → (b ≡ true → seen f r ≡ q)
    → (b ≡ false → seen f r' ≡ q')
    → seen f (if b then r else r') ≡ (if b then q else q')
seen-if f true r r' q q' h g = h refl
seen-if f false r r' q q' h g = g refl

module _ (env : Env) where
  -- The replica of a server and a status.
  abbrev pub both : Server env × Status → Replica env × Status
  both (s, st) = (replica_of env s, st)

  -- The replica of a server, a status, and one part more.
  abbrev pub both_of : {X : Type 0} → Server env × Status × X → Replica env × Status
  both_of (s, st, x) = (replica_of env s, st)

  module _ (now : ℕ) where
    -- Behind a trigger the run goes on with the same replica.
    pub triger-seen :
        {A B : Type 0} (f : A → B) (s : Server env) (e : Event) (k : Server env → Run A)
        (q : Replica env → Run B)
        → starts_at_root e.node ≡ true
        → IsKeyed env (replica_of env s)
        → ((t : Server env) → seen f (k t) ≡ q (replica_of env t))
        → seen f (chain (triger env now s e) k) ≡ q (replica_of env s)
    triger-seen f s e k q h keyed w =
        let (t, ran, _) = triger-returns env now s e h in
        let same = held_by (Calm env s) _ t (triger-Calm env now s e) ran keyed in
        rw (ran, seen) (w t ∙ ap q same)

    pub triger_both-seen :
        {A B : Type 0} (f : A → B) (s : Server env) (path : Bytes) (type : ℕ)
        (k : Server env → Run A) (q : Replica env → Run B)
        → starts_at_root path ≡ true
        → starts_at_root (split_path path).parent ≡ true
        → IsKeyed env (replica_of env s)
        → ((t : Server env) → seen f (k t) ≡ q (replica_of env t))
        → seen f (chain (triger_both env now s path type) k) ≡ q (replica_of env s)
    triger_both-seen f s path type k q h g keyed w =
        let (t, e, _) = triger_both-returns env now s path type h g in
        let same = held_by (Calm env s) _ t (triger_both-Calm env now s path type) e keyed in
        rw (e, seen) (w t ∙ ap q same)

  module _ (l : IsEnv env) (now : ℕ) where
    -- DeleteNode.
    pub delete_node-seen :
        (s : Server env) (path : Bytes)
        → IsKeyed env (replica_of env s)
        → seen both (delete_node env now s path) ≡ remove_node env (replica_of env s) path
    unfolding delete_node remove_node
    delete_node-seen s path keyed = elim (Run-cases (Store.delete env s.store path)) [
      | inl h ↦ rw (h, delete_node, remove_node) refl
      | inr (r, h) ↦ elim (Bool-cases (is_ok r.1)) [
        | inr b ↦ rw (h, b, delete_node, remove_node) refl
        | inl b ↦
            let (open_, above) = deleted-open env l s.store path r h b in
            rw (h, b, delete_node, remove_node)
              (triger_both-seen now both (record s { store = r.0 }) path Watch.delete
                (λ t. returns (t, Status.ok)) (λ q. returns (q, Status.ok)) open_ above keyed
                (λ t. refl))
      ]
    ]

    remove_node-owned :
        (r : Replica env) (path : Bytes) (q : Replica env × Status)
        → remove_node env r path ≡ returns q
        → q.0.owned ≡ r.owned
    unfolding remove_node
    remove_node-owned r path q h = elim (Run-cases (Store.delete env r.store path)) [
      | inl e ↦ absurd (ground (arith, h))
      | inr (x, e) ↦ ground (arith, h)
    ]

    -- The loop of ~Session.
    pub delete_nodes-seen :
        (paths : List Bytes) (s : Server env) (sid : ℕ)
        → IsKeyed env (replica_of env s)
        → seen (replica_of env) (delete_nodes env now s sid paths)
          ≡ remove_nodes env (replica_of env s) sid paths
    unfolding delete_nodes remove_nodes
    delete_nodes-seen [] s sid keyed = refl
    delete_nodes-seen (path ∷ paths) s sid keyed =
        let (st, node) = get env s.store path Node.empty in
        let h = delete_node-seen s path keyed in
        elim (Bool-cases (is_not_found st || not (node.sid == sid))) [
          | inl b ↦ rw (b, delete_nodes, remove_nodes) (delete_nodes-seen paths s sid keyed)
          | inr b ↦
              rw (b, delete_nodes, remove_nodes)
                (seen-chain both (replica_of env) (delete_node env now s path) _ _ _ h (λ u e.
                  seen-check (replica_of env) _ _ _ (
                    delete_nodes-seen paths u.0 sid (
                      subst (λ f. IsKeyed env (record { store = u.0.store; owned = f }))
                        (sym (
                          remove_node-owned (replica_of env s) path (both u)
                            (sym h ∙ ap (seen both) e)))
                        keyed))))
        ]
