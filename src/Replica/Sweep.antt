-- ===== src/Replica/Sweep.antt =====
-- The nodes that Delete and the end of a session take away.
use pyxis.Prelude.{
  ℕ, Bytes, true, false, not, ◌||◌, List, [], ◌∷◌, some, ◌≡◌, ◌≢◌, refl, sym, ap, subst, ◌∙◌, arith,
  beq, beq_iff, Bool-cases, Option-cases, inl, inr, if◌then◌else◌, ==_iff, ◌==◌, Option,
}
use pyxis.Common.Status
use pyxis.Common.Status.{Status, is_ok, is_not_found}
use pyxis.Db.{Env}
use pyxis.Db.Laws.{IsEnv}
use pyxis.Node
use pyxis.Node.{Node, is_ephemeral}
use pyxis.Paths.{split_path}
use pyxis.Tree.{Slot-cases, Slot, holds}
use pyxis.Tree.Own.{root-unsplit}
use pyxis.Store.{Store, Run, returns, aborts, get, under_proc}
use pyxis.Store
use pyxis.Store.View.{view, get-held}
use pyxis.Store.Delete.{delete-found}
use pyxis.Store.Invariant.{IsStore}
use pyxis.Store.Machine
use pyxis.Store.Machine.{Call}
use pyxis.Store.Refine.{Applied, apply, deleted}
use pyxis.Server.Holds.{Holds, Holds-chain, Holds-checked, Holds-test, of_result, Holds-if}
use pyxis.Maps.Keys.{nat_key, bytes_key}
use pyxis.Replica
use pyxis.Replica.{Owner, set_at, Replica, IsKeyed}
use pyxis.Replica.Held.{IsHeld, ephemeral_of, delete-held}
use pyxis.Paths.Split.{split_path-ok}
use pyxis.Maps.{member}
use pyxis.Replica.Linked.{Linked}
use pyxis.Replica.Owns.{Owns, Owns-unbind}

split_path-named : (p : Bytes) → is_not_found (split_path p).status ≡ false
unfolding split_path
split_path-named p = ground arith

pub held_node :
    (o : Slot) (i : ℕ)
    → ephemeral_of o ≡ some i
    → (n : Node) × (o ≡ holds n) × (is_ephemeral n.flags ≡ true) × (n.sid ≡ i)
held_node o i h = elim (Slot-cases o) [
  | inl e ↦ absurd (ground (arith, h, e))
  | inr (n, e) ↦ (n, e, ground (arith, h, e), ground (arith, h, e))
]

module _ (env : Env) where
  -- What DeleteNode leaves.
  pub record Removed (r : Replica env) (path : Bytes) (q : Replica env × Status) : Type 0 where
    pub good : IsStore env q.0.store
    pub same : q.0.owned ≡ r.owned
    pub left :
        (p : Bytes) (i : ℕ)
        → IsHeld (view env q.0.store) p i
        → IsHeld (view env r.store) p i × (is_ok q.1 ≡ true → path ≢ p)
    pub missing : (i : ℕ) → is_not_found q.1 ≡ true → ephemeral_of (view env r.store path) ≢ some i

  -- Get finds an ephemeral node that is held.
  held-found :
      (s : Store env) (path : Bytes) (i : ℕ)
      → IsHeld (view env s) path i
      → (n : Node) × (get env s path Node.empty ≡ (Status.ok, n))
        × (view env s path ≡ holds n)
        × (under_proc env s path ≡ false)
        × (n.sid ≡ i)
  held-found s path i h =
      let (n, e, _, same) = held_node (view env s path) i h in
      let (found, (out, _)) = get-held env s path n e in (n, found, e, out, same)

  -- Delete does not miss a node that is there.
  delete-held_found :
      (s : Store env) (path : Bytes) (i : ℕ) (x : Store env × Status)
      → IsStore env s
      → IsHeld (view env s) path i
      → Store.delete env s path ≡ returns x
      → is_not_found x.1 ≡ false
  delete-held_found s path i x v h e =
      let (n, found, at, out, _) = held-found s path i h in
      delete-found env s path x out (split_path-named path) (ground (arith, found))
        (λ ok.
          let (m, under, _) = v.tree.has_parent path n at (λ z.
            root-unsplit
              (subst (λ p. (split_path p).status ≡ Status.ok) z (split_path-ok path ok))) in
          let (up, _) = get-held env s (split_path path).parent m under in ground (arith, up))
        e

  module _ (l : IsEnv env) where
    pub remove_node-Removed :
        (r : Replica env) (path : Bytes)
        → IsStore env r.store
        → Holds (Removed r path) (Replica.remove_node env r path)
    unfolding Replica.remove_node apply
    remove_node-Removed r path v =
        let a : Applied env (Machine.delete path) r.store = deleted env l r.store v path in
        let st : Status = if not (is_ok a.result.1) then a.result.1 else Status.ok in
        rw (a.ran, Replica.remove_node)
          (of_result (record { store = a.result.0; owned = r.owned }, st)
            (record {
              good = a.good;
              same = refl;
              left = λ p i h.
                  let (was, other) = delete-held _ _ _ p i path a.result.1 a.does h in
                  (was, λ k. other (ground (arith, k)));
              missing = λ i k h.
                  absurd (ground (arith, k, delete-held_found r.store path i a.result v h a.ran));
            }))

    -- Delete on the replica.
    pub delete-Linked :
        (r : Replica env) (sid : ℕ) (path : Bytes)
        → IsKeyed env r
        → Linked env r
        → Holds (λ (q : Replica env × Status). Linked env q.0) (Replica.delete env r sid path)
    unfolding Replica.delete
    delete-Linked r sid path keyed v =
        let P : Replica env × Status → Type 0 = λ q. Linked env q.0 in
        Holds-if P (not (is_ok (get env r.store path Node.empty).0)) _ _ (of_result _ v) (
          Holds-chain (Removed r path) P (Replica.remove_node env r path) _
            (remove_node-Removed r path v.good)
            (λ q k.
              let owns : (p : Bytes) (i : ℕ)
                  → IsHeld (view env q.0.store) p i
                  → Owns q.0.owned i p =
                λ p i h. subst (λ f. Owns f i p) (sym k.same) (v.owns p i (k.left p i h).0) in
              Holds-test P (not (is_ok q.1)) _ _
                (λ b. of_result q (record { good = k.good; owns = owns }))
                (λ b. elim (Option-cases (q.0.owned sid)) [
                  | inl n ↦ rw n (of_result _ (record { good = k.good; owns = owns }))
                  | inr ((i, nodes), o) ↦
                      let at : i ≡ sid =
                        keyed sid i nodes (ap (λ (f : ℕ → Option Owner). f sid) (sym k.same) ∙ o) in
                      rw o (
                        of_result _ (record {
                          good = k.good;
                          owns = λ p j h.
                              Owns-unbind q.0.owned i nodes (ap q.0.owned at ∙ o) path p j
                                ((k.left p j h).1 (ground (arith, b))) (owns p j h);
                        }))
                ])))

  -- Every ephemeral node of a session is at one of the paths, and the others have their owners.
  pub record Sweeping (sid : ℕ) (paths : List Bytes) (r : Replica env) : Type 0 where
    pub good : IsStore env r.store
    pub rest :
        (p : Bytes) (i : ℕ)
        → IsHeld (view env r.store) p i
        → (i ≡ sid → member p paths ≡ true) × (i ≢ sid → Owns r.owned i p)

  -- A path at which Get finds no node of the session.
  skipped :
      (r : Replica env) (sid : ℕ) (path : Bytes) (paths : List Bytes)
      → Sweeping sid (path ∷ paths) r
      → (let (st, node) = get env r.store path Node.empty in
          is_not_found st || not (node.sid == sid) ≡ true)
      → Sweeping sid paths r
  unfolding member
  skipped r sid path paths v b = record {
    good = v.good;
    rest = λ p i h. (
      λ e. elim (Bool-cases (beq path p)) [
        | inr z ↦ ground (arith, (v.rest p i h).0 e, z)
        | inl z ↦
            let same : path ≡ p = (beq_iff path p).0 z in
            let (n, found, _, _, at) =
              held-found r.store path i (subst (λ q. IsHeld (view env r.store) q i) (sym same) h) in
            absurd (ground (arith, found, b, at, e, ==_iff n.sid sid))
      ],
      (v.rest p i h).1,
    );
  }

  -- A path at which DeleteNode succeeded or found nothing.
  swept :
      (r : Replica env) (sid : ℕ) (path : Bytes) (paths : List Bytes) (q : Replica env × Status)
      → Sweeping sid (path ∷ paths) r
      → Removed r path q
      → (is_ok q.1 || is_not_found q.1) ≡ true
      → Sweeping sid paths q.0
  unfolding member
  swept r sid path paths q v k c = record {
    good = k.good;
    rest = λ p i h.
        let (was, other) = k.left p i h in
        (
          λ e. elim (Bool-cases (beq path p)) [
            | inr z ↦ ground (arith, (v.rest p i was).0 e, z)
            | inl z ↦
                let same : path ≡ p = (beq_iff path p).0 z in
                let gone : is_not_found q.1 ≡ false = elim (Bool-cases (is_not_found q.1)) [
                  | inr f ↦ f
                  | inl f ↦
                      absurd
                        (k.missing i f (subst (λ y. IsHeld (view env r.store) y i) (sym same) was))
                ] in
                absurd (other (ground (arith, c, gone)) same)
          ],
          λ n. subst (λ f. Owns f i p) (sym k.same) ((v.rest p i was).1 n),
        );
  }

  module _ (l : IsEnv env) where
    pub remove_nodes-Sweeping :
        (paths : List Bytes) (r : Replica env) (sid : ℕ)
        → Sweeping sid paths r
        → Holds (Sweeping sid []) (Replica.remove_nodes env r sid paths)
    unfolding Replica.remove_nodes
    remove_nodes-Sweeping [] r sid v = of_result r v
    remove_nodes-Sweeping (path ∷ paths) r sid v =
        let (st, node) = get env r.store path Node.empty in
        Holds-test (Sweeping sid []) (is_not_found st || not (node.sid == sid)) _ _
          (λ b. remove_nodes-Sweeping paths r sid (skipped r sid path paths v b))
          (λ b.
            Holds-chain (Removed r path) (Sweeping sid []) (Replica.remove_node env r path) _
              (remove_node-Removed l r path v.good)
              (λ q k.
                Holds-checked (Sweeping sid []) (is_ok q.1 || is_not_found q.1) _
                  (λ c. remove_nodes-Sweeping paths q.0 sid (swept r sid path paths q v k c))))
