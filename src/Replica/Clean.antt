-- ===== src/Replica/Clean.antt =====
-- Every ephemeral node has its session, over any run of a server; a session that ends leaves none.
use pyxis.Prelude.{
  ℕ, Bytes, List, [], ◌∷◌, Option, none, some, ◌≡◌, ◌≢◌, refl, sym, ap, ◌∙◌, arith, Bool-cases,
  Option-cases, inl, inr, ==_iff, ◌==◌,
}
use pyxis.Maps.{member}
use pyxis.Maps.Keys.{nat_key, bytes_key}
use pyxis.Common.Status
use pyxis.Common.Status.{Status, is_ok}
use pyxis.Db.{Env, SavedSession}
use pyxis.Db.Laws.{IsEnv}
use pyxis.Store.{returns}
use pyxis.Store.View.{view}
use pyxis.Store.Rows.{rows-view}
use pyxis.Store.Saved.{add_session, remove_session, set_commit_index}
use pyxis.Store.Invariant.{same-IsStore}
use pyxis.Server.{Server, Options}
use pyxis.Server.Holds.{
  Holds, Holds-chain, Holds-check, Holds-if, Holds-elim, of_result, held_by, weakened, Holds-both,
}
use pyxis.Server.Loops.{Looping}
use pyxis.Server.Commands.{on_unregister}
use pyxis.Messages.{Request, sid_of, is_some}
use pyxis.Replica
use pyxis.Replica.{Owner, set_at, add_owner, Replica, replica_of, IsKeyed}
use pyxis.Replica.Held.{ephemeral_of}
use pyxis.Replica.Owns.{Owns-add_owner}
use pyxis.Replica.Linked.{Linked, same-Linked, write-Linked, create-Linked}
use pyxis.Replica.Sweep.{delete-Linked, Sweeping, remove_nodes-Sweeping}
use pyxis.Replica.Keyed.{command-Keyed}
use pyxis.Replica.Mirror.{both, seen}
use pyxis.Replica.Commands.{unregister-seen}
use pyxis.Replica.Log.{Entry, applied, saved, replay_one, replay, Ran}
use pyxis.Replica.Agree.{Ran-replays}

module _ (env : Env) where
  -- No ephemeral node of a session is left.
  abbrev pub Cleared : ℕ → Replica env × Status → Type 0
  Cleared sid q = Linked env q.0 × ((p : Bytes) → ephemeral_of (view env q.0.store p) ≢ some sid)

  -- A replica whose sessions stand at their ids and own their ephemeral nodes.
  abbrev pub IsClean : Replica env → Type 0
  IsClean r = IsKeyed env r × Linked env r

module _ (env : Env) (l : IsEnv env) where
  -- The session's row and its entry gone, before its nodes go.
  begun :
      (r : Replica env) (sid : ℕ) (nodes : List Bytes)
      → Linked env r
      → r.owned sid ≡ some (sid, nodes)
      → Sweeping env sid nodes
          (record { store = (remove_session env r.store sid).0; owned = set_at sid none r.owned })
  unfolding remove_session set_at
  begun r sid nodes v o =
      let row : SavedSession = record { sid = 0; watches = []; nodes = []; timeout = 0 } in
      let same : (k : Bytes) → view env (remove_session env r.store sid).0 k ≡ view env r.store k =
        λ k. (rows-view env l r.store row sid 0 k).1 in
      record {
        good = same-IsStore env r.store (remove_session env r.store sid).0 refl same v.good;
        rest = λ p i h.
            let (ns, e, m) = v.owns p i (ap ephemeral_of (sym (same p)) ∙ h) in
            (
              λ at.
                  let had : some (i, ns) ≡ some (sid, nodes) = sym e ∙ ap r.owned at ∙ o in
                  ground (arith, had, m),
              λ n. (ns, ground (arith, e, n, ==_iff sid i), m),
            );
      }

  ended :
      (q : Replica env) (sid : ℕ) (st : Status) → Sweeping env sid [] q → Cleared env sid (q, st)
  unfolding member
  ended q sid st v = (
    record {
      good = v.good;
      owns = λ p i h. elim (Bool-cases (i == sid)) [
        | inl b ↦ absurd (ground (arith, (v.rest p i h).0 ((==_iff i sid).0 b)))
        | inr b ↦ (v.rest p i h).1 (λ e. ground (arith, b, e))
      ];
    },
    λ p h. ground (arith, (v.rest p sid h).0 refl),
  )

  unregister-Cleared :
      (r : Replica env) (sid : ℕ)
      → IsKeyed env r
      → Linked env r
      → Holds (Cleared env sid) (Replica.unregister env r sid)
  unfolding Replica.unregister
  unregister-Cleared r sid keyed v = elim (Option-cases (r.owned sid)) [
    | inl n ↦
        rw (n, Replica.unregister)
          (of_result _ (v, λ p h. let (ns, e, _) = v.owns p sid h in ground (arith, n, e)))
    | inr ((i, nodes), o) ↦
        let at : i ≡ sid = keyed sid i nodes o in
        let o' : r.owned sid ≡ some (sid, nodes) = o ∙ ap (λ j. some (j, nodes)) at in
        rw (o', Replica.unregister)
          (Holds-check (Cleared env sid) (is_ok (remove_session env r.store sid).1) _ (
            Holds-chain (Sweeping env sid []) (Cleared env sid) _ _
              (remove_nodes-Sweeping env l nodes _ sid (begun r sid nodes v o'))
              (λ q k. of_result (q, Status.ok) (ended q sid Status.ok k))))
  ]

  saved-Linked :
      (r : Replica env) (index : ℕ)
      → Linked env r
      → Linked env (record r { store = (set_commit_index env r.store index).0 })
  unfolding set_commit_index
  saved-Linked r index v =
      let row : SavedSession = record { sid = 0; watches = []; nodes = []; timeout = 0 } in
      same-Linked env l r _ refl (λ k. (rows-view env l r.store row 0 index k).2) (λ j p o. o) v

  register-Linked :
      (r : Replica env) (sid timeout : ℕ)
      → Linked env r
      → Holds (λ (q : Replica env × Status). Linked env q.0) (Replica.register env r sid timeout)
  unfolding Replica.register add_session
  register-Linked r sid timeout v =
      let row : SavedSession = record { sid = sid; watches = []; nodes = []; timeout = timeout } in
      let store = add_session env r.store row in
      Holds-check (λ (q : Replica env × Status). Linked env q.0) (is_ok store.1) _
        (of_result _ (
          same-Linked env l r (record { store = store.0; owned = add_owner sid r.owned }) refl
            (λ k. (rows-view env l r.store row 0 0 k).0) (λ j p o. Owns-add_owner r.owned sid j p o)
            v))

  command-Linked :
      (r : Replica env) (req : Request)
      → IsKeyed env r
      → Linked env r
      → Holds (λ (q : Replica env × Status). Linked env q.0) (Replica.command env r req)
  unfolding Replica.command Replica.read Replica.stat
  command-Linked r req keyed v =
      let P : Replica env × Status → Type 0 = λ q. Linked env q.0 in
      Holds-if P (is_some req.register) _ _ (register-Linked r (sid_of req) _ v) (
        Holds-if P req.unregister _ _
          (weakened (Cleared env (sid_of req)) P _ (λ q k. k.0)
            (unregister-Cleared r (sid_of req) keyed v))
          (Holds-elim P req.create _ _
            (Holds-elim P req.delete _ _
              (Holds-elim P req.read _ _
                (Holds-elim P req.write _ _
                  (Holds-elim P req.stat _ _
                    (Holds-if P (is_some req.watch) _ _ (of_result _ v) (of_result _ v))
                    (λ path. Holds-check P _ _ (of_result _ v)))
                  (λ w. write-Linked env l r w v))
                (λ path. Holds-check P _ _ (of_result _ v)))
              (λ path. delete-Linked env l r (sid_of req) path keyed v))
            (λ c. create-Linked env l r (sid_of req) c keyed v)))

  replay_one-IsClean :
      (r : Replica env) (x : Entry) → IsClean env r → Holds (IsClean env) (replay_one env r x)
  unfolding replay_one
  replay_one-IsClean r (saved index) (keyed, v) =
      Holds-check (IsClean env) (is_ok (set_commit_index env r.store index).1) _
        (of_result _ (keyed, saved-Linked r index v))
  replay_one-IsClean r (applied cmd) (keyed, v) =
      let P : Replica env × Status → Type 0 = λ q. IsClean env q.0 in
      Holds-chain P (IsClean env) (Replica.command env r cmd) _
        (Holds-both (λ (q : Replica env × Status). IsKeyed env q.0)
          (λ (q : Replica env × Status). Linked env q.0) _ (command-Keyed env r cmd keyed)
          (command-Linked r cmd keyed v))
        (λ q k. of_result q.0 k)

  replay-IsClean :
      (log : List Entry) (r : Replica env) → IsClean env r → Holds (IsClean env) (replay env r log)
  unfolding replay
  replay-IsClean [] r v = of_result r v
  replay-IsClean (x ∷ log) r v =
      Holds-chain (IsClean env) (IsClean env) (replay_one env r x) _ (replay_one-IsClean r x v)
        (λ q k. replay-IsClean log q k)

  -- Over any run of a server from a state in which the nodes are a tree and every ephemeral node is
  -- among the nodes of its session, both hold again: no ephemeral node is without its session.
  pub Ran-IsClean :
      (parse : Bytes → Option Request) (add_ms : ℕ → ℕ → ℕ) (o : Options) (addresses : List Bytes)
      (raft_stop raft_leader : ℕ) (m n : Looping env) (log : List Entry)
      → IsClean env (replica_of env m.server)
      → Ran env parse add_ms o addresses raft_stop raft_leader m log n
      → IsClean env (replica_of env n.server)
  Ran-IsClean parse add_ms o addresses raft_stop raft_leader m n log v r =
      held_by (IsClean env) (replay env (replica_of env m.server) log) (replica_of env n.server)
        (replay-IsClean log (replica_of env m.server) v)
        (Ran-replays env l parse add_ms o addresses raft_stop raft_leader m n log v.0 r)

  -- An onUnRegister that returns leaves no ephemeral node of the session that ends, and every other
  -- ephemeral node among the nodes of its session.
  pub on_unregister-clears :
      (add_ms : ℕ → ℕ → ℕ) (now : ℕ) (s t : Server env) (req : Request) (st : Status)
      → IsClean env (replica_of env s)
      → on_unregister env add_ms now s req ≡ returns (t, st)
      → Linked env (replica_of env t)
        × ((p : Bytes) → ephemeral_of (view env t.store p) ≢ some (sid_of req))
  on_unregister-clears add_ms now s t req st (keyed, v) e =
      held_by (Cleared env (sid_of req)) (Replica.unregister env (replica_of env s) (sid_of req))
        (replica_of env t, st) (unregister-Cleared (replica_of env s) (sid_of req) keyed v)
        (sym (unregister-seen env l add_ms now s req keyed) ∙ ap (seen (both env)) e)
