-- ===== src/Replica/Linked.antt =====
-- Every ephemeral node is among the nodes of its session: the commands that keep all sessions.
use pyxis.Prelude.{
  ℕ, Bytes, true, not, ◌&&◌, some, ◌≡◌, refl, sym, ap, subst, ◌∙◌, arith, Option-cases, inl, inr,
  if◌then◌else◌, ◌⊎◌,
}
use pyxis.Maps.{set_insert}
use pyxis.Maps.Keys.{nat_key, bytes_key}
use pyxis.Common.Status
use pyxis.Common.Status.{Status, is_ok}
use pyxis.Db.{Env}
use pyxis.Db.Laws.{IsEnv}
use pyxis.Node.{is_ephemeral}
use pyxis.Store.{Store, Run, returns, aborts, get, under_proc}
use pyxis.Store
use pyxis.Store.View.{view}
use pyxis.Store.Invariant.{IsStore, same-IsStore}
use pyxis.Store.Machine
use pyxis.Store.Refine.{Applied, created, wrote, apply}
use pyxis.Server.Holds.{Holds, Holds-chain, Holds-if, of_result, of_none, Holds-test, one_result}
use pyxis.Messages.{CreateRequest, WriteRequest, is_some}
use pyxis.Replica
use pyxis.Replica.{Owner, set_at, add_owner, Replica, IsKeyed}
use pyxis.Replica.Held.{IsHeld, ephemeral_of, write-held, create-held}
use pyxis.Replica.Owns.{Owns, Owns-bind, Owns-bound}
use pyxis.Store.Machine.{Call, Does}

module _ (env : Env) where
  -- The nodes are a tree, and every ephemeral node is among the nodes of its session.
  pub record Linked (r : Replica env) : Type 0 where
    pub good : IsStore env r.store
    pub owns : (p : Bytes) (i : ℕ) → IsHeld (view env r.store) p i → Owns r.owned i p

  abbrev LinkedIn : Replica env × Status → Type 0
  LinkedIn q = Linked q.0

  module _ (l : IsEnv env) where
    -- A store with the same nodes.
    pub same-Linked :
        (r q : Replica env)
        → q.store.proc_root ≡ r.store.proc_root
        → ((k : Bytes) → view env q.store k ≡ view env r.store k)
        → ((j : ℕ) (p : Bytes) → Owns r.owned j p → Owns q.owned j p)
        → Linked r
        → Linked q
    same-Linked r q e h more v = record {
      good = same-IsStore env r.store q.store e h v.good;
      owns = λ p i held. more i p (v.owns p i (ap ephemeral_of (sym (h p)) ∙ held));
    }

    -- What a call did, in terms of its own result.
    pub done_by :
        (c : Call) (s : Store env) (x : Store env × Status)
        → apply env c s ≡ returns x
        → Applied env c s
        → IsStore env x.0 × Does (under_proc env s) (view env s) (view env x.0) c x.1
    done_by c s x e a =
        subst (λ y. IsStore env y.0 × Does (under_proc env s) (view env s) (view env y.0) c y.1)
          (one_result a.result x (sym a.ran ∙ e)) (a.good, a.does)

    pub write-Linked :
        (r : Replica env) (req : WriteRequest) → Linked r → Holds LinkedIn (Replica.write env r req)
    unfolding Replica.write apply
    write-Linked r req v =
        let c : Call = Machine.write req.path req.content in
        let (good, does) =
          done_by c r.store (Store.write env r.store req.path req.content) refl
            (wrote env l r.store v.good req.path req.content) in
        of_result _ (record {
          good = good;
          owns = λ p i h. v.owns p i (write-held _ _ _ p i req.path req.content _ does h);
        })

    -- Binding the one path that its session does not own yet.
    bind-Linked :
        (r : Replica env) (sid : ℕ) (path : Bytes)
        → IsKeyed env r
        → IsStore env r.store
        → ((p : Bytes) (i : ℕ)
            → IsHeld (view env r.store) p i
            → Owns r.owned i p ⊎ ((path ≡ p) × (sid ≡ i)))
        → Holds Linked (Replica.bind env r sid path)
    unfolding Replica.bind
    bind-Linked r sid path keyed good owned = elim (Option-cases (r.owned sid)) [
      | inl n ↦ rw (n, Replica.bind) of_none
      | inr ((i, nodes), o) ↦
          let same : i ≡ sid = keyed sid i nodes o in
          let here : r.owned i ≡ some (i, nodes) = ap r.owned same ∙ o in
          rw (o, Replica.bind)
            (of_result _ (record {
              good = good;
              owns = λ p j h. elim (owned p j h) [
                | inl was ↦ Owns-bind r.owned i nodes here path p j was
                | inr (at_path, is_sid) ↦
                    subst (λ q. Owns (set_at i (some (i, set_insert path nodes)) r.owned) j q)
                      at_path
                      (subst (λ k. Owns (set_at i (some (i, set_insert path nodes)) r.owned) k path)
                        (same ∙ is_sid) (Owns-bound r.owned i nodes here path))
              ];
            }))
    ]

    -- Behind Create an ephemeral node is owned, or is the new one.
    create-Owns :
        (r : Replica env) (sid : ℕ) (req : CreateRequest)
        → Linked r
        → (let made = Store.create env r.store req.path req.content req.flags sid in
            IsStore env made.0
            × ((p : Bytes) (i : ℕ)
                → IsHeld (view env made.0) p i
                → Owns r.owned i p
                  ⊎ ((is_ok made.1 ≡ true)
                      × (req.path ≡ p)
                      × (is_ephemeral req.flags ≡ true)
                      × (sid ≡ i))))
    unfolding apply
    create-Owns r sid req v =
        let made = Store.create env r.store req.path req.content req.flags sid in
        let c : Call = Machine.create req.path req.content req.flags sid in
        let (good, does) =
          done_by c r.store made refl
            (created env l r.store v.good req.path req.content req.flags sid) in
        (
          good,
          λ p i h. elim (create-held _ _ _ p i req.path req.content req.flags sid _ does h) [
            | inl was ↦ inl (v.owns p i was)
            | inr new ↦ inr new
          ],
        )

    pub create-Linked :
        (r : Replica env) (sid : ℕ) (req : CreateRequest)
        → IsKeyed env r
        → Linked r
        → Holds LinkedIn (Replica.create env r sid req)
    unfolding Replica.create Replica.bind
    create-Linked r sid req keyed v =
        let made = Store.create env r.store req.path req.content req.flags sid in
        let (good, owned) = create-Owns r sid req v in
        let r' : Replica env = record r { store = made.0 } in
        Holds-if LinkedIn (not (is_some (r.owned sid)) && is_ephemeral req.flags) _ _
          (of_result _ v)
          (Holds-test LinkedIn (not (is_ok made.1)) _ _
            (λ b.
              of_result (r', made.1)
                (record {
                  good = good;
                  owns = λ p i h. elim (owned p i h) [
                    | inl o ↦ o
                    | inr (ok, _, _, _) ↦ absurd (ground (arith, b, ok))
                  ];
                }))
            (λ b.
              Holds-chain Linked LinkedIn
                (if is_ephemeral req.flags then Replica.bind env r' sid req.path else returns r') _
                (Holds-test Linked (is_ephemeral req.flags) _ _
                  (λ e. bind-Linked r' sid req.path keyed good (λ p i h. elim (owned p i h) [
                    | inl o ↦ inl o
                    | inr (_, at_path, _, same) ↦ inr (at_path, same)
                  ]))
                  (λ e. of_result r' (record {
                    good = good;
                    owns = λ p i h. elim (owned p i h) [
                      | inl o ↦ o
                      | inr (_, _, f, _) ↦ absurd (ground (arith, e, f))
                    ];
                  })))
                (λ q k. of_result (q, Status.ok) k)))
