-- ===== src/Replica/Keyed.antt =====
-- The commands keep every session at its own id.
use pyxis.Prelude.{
  ℕ, Bytes, not, ◌&&◌, ◌||◌, List, [], ◌∷◌, Option, none, some, arith, Option-cases, inl, inr,
  if◌then◌else◌, ◌==◌, ==_iff,
}
use pyxis.Maps.Keys.{nat_key, bytes_key}
use pyxis.Common.Status.{Status, is_ok, is_not_found}
use pyxis.Db.{Env}
use pyxis.Node
use pyxis.Node.{is_ephemeral}
use pyxis.Store.{Store, Run, returns, aborts, get}
use pyxis.Store
use pyxis.Store.Saved.{remove_session}
use pyxis.Server.Holds.{
  Holds, Holds-chain, Holds-check, Holds-after, Holds-if, Holds-elim, of_result, of_none,
}
use pyxis.Messages.{Request, CreateRequest, sid_of, is_some}
use pyxis.Replica
use pyxis.Replica.{Owner, set_at, add_owner, Replica, IsKeyed, IsKeyedMap}

pub set_at-IsKeyed :
    (i : ℕ) (nodes : List Bytes) (f : ℕ → Option Owner)
    → IsKeyedMap f
    → IsKeyedMap (set_at i (some (i, nodes)) f)
unfolding set_at
set_at-IsKeyed i nodes f h k j ns e = ground (arith, h k j ns, e, ==_iff i k)

pub unset-IsKeyed : (i : ℕ) (f : ℕ → Option Owner) → IsKeyedMap f → IsKeyedMap (set_at i none f)
unfolding set_at
unset-IsKeyed i f h k j ns e = ground (arith, h k j ns, e, ==_iff i k)

pub add_owner-IsKeyed : (i : ℕ) (f : ℕ → Option Owner) → IsKeyedMap f → IsKeyedMap (add_owner i f)
unfolding add_owner
add_owner-IsKeyed i f h = elim (Option-cases (f i)) [
  | inl e ↦ rw (e, add_owner) (set_at-IsKeyed i [] f h)
  | inr (x, e) ↦ rw (e, add_owner) h
]

module _ (env : Env) where
  -- A result with a status that is keyed.
  abbrev KeyedIn : Replica env × Status → Type 0
  KeyedIn q = IsKeyed env q.0

  remove_node-Keyed :
      (r : Replica env) (path : Bytes)
      → IsKeyed env r
      → Holds KeyedIn (Replica.remove_node env r path)
  unfolding Replica.remove_node
  remove_node-Keyed r path h =
      Holds-after KeyedIn (Store.delete env r.store path) _ (λ q. of_result _ h)

  remove_nodes-Keyed :
      (paths : List Bytes) (r : Replica env) (sid : ℕ)
      → IsKeyed env r
      → Holds (IsKeyed env) (Replica.remove_nodes env r sid paths)
  unfolding Replica.remove_nodes
  remove_nodes-Keyed [] r sid h = of_result r h
  remove_nodes-Keyed (path ∷ paths) r sid h =
      let (st, node) = get env r.store path Node.empty in
      Holds-if (IsKeyed env) (is_not_found st || not (node.sid == sid)) _ _
        (remove_nodes-Keyed paths r sid h)
        (Holds-chain KeyedIn (IsKeyed env) (Replica.remove_node env r path) _
          (remove_node-Keyed r path h)
          (λ q k. Holds-check (IsKeyed env) _ _ (remove_nodes-Keyed paths q.0 sid k)))

  pub bind-Keyed :
      (r : Replica env) (sid : ℕ) (path : Bytes)
      → IsKeyed env r
      → Holds (IsKeyed env) (Replica.bind env r sid path)
  unfolding Replica.bind
  bind-Keyed r sid path h =
      Holds-elim (IsKeyed env) (r.owned sid) _ _ of_none
        (λ x. of_result _ (set_at-IsKeyed x.0 _ r.owned h))

  create-Keyed :
      (r : Replica env) (sid : ℕ) (req : CreateRequest)
      → IsKeyed env r
      → Holds KeyedIn (Replica.create env r sid req)
  unfolding Replica.create
  create-Keyed r sid req h =
      let (store, st) = Store.create env r.store req.path req.content req.flags sid in
      let r' : Replica env = record r { store = store } in
      Holds-if KeyedIn (not (is_some (r.owned sid)) && is_ephemeral req.flags) _ _ (of_result _ h) (
        Holds-if KeyedIn (not (is_ok st)) _ _ (of_result _ h) (
          Holds-chain (IsKeyed env) KeyedIn
            (if is_ephemeral req.flags then Replica.bind env r' sid req.path else returns r') _
            (Holds-if (IsKeyed env) (is_ephemeral req.flags) _ _ (bind-Keyed r' sid req.path h)
              (of_result r' h))
            (λ q k. of_result _ k)))

  delete-Keyed :
      (r : Replica env) (sid : ℕ) (path : Bytes)
      → IsKeyed env r
      → Holds KeyedIn (Replica.delete env r sid path)
  unfolding Replica.delete
  delete-Keyed r sid path h =
      Holds-if KeyedIn (not (is_ok (get env r.store path Node.empty).0)) _ _ (of_result _ h) (
        Holds-chain KeyedIn KeyedIn (Replica.remove_node env r path) _ (remove_node-Keyed r path h)
          (λ q k. Holds-if KeyedIn (not (is_ok q.1)) _ _ (of_result q k) (
            Holds-elim KeyedIn (q.0.owned sid) _ _ (of_result _ k)
              (λ x. of_result _ (set_at-IsKeyed x.0 _ q.0.owned k)))))

  unregister-Keyed :
      (r : Replica env) (sid : ℕ) → IsKeyed env r → Holds KeyedIn (Replica.unregister env r sid)
  unfolding Replica.unregister
  unregister-Keyed r sid h = Holds-elim KeyedIn (r.owned sid) _ _ (of_result _ h) (λ x.
      let (store, st) = remove_session env r.store sid in
      let r' : Replica env = record { store = store; owned = set_at sid none r.owned } in
      Holds-check KeyedIn (is_ok st) _ (
        Holds-chain (IsKeyed env) KeyedIn (Replica.remove_nodes env r' x.0 x.1) _
          (remove_nodes-Keyed x.1 r' x.0 (unset-IsKeyed sid r.owned h)) (λ q k. of_result _ k)))

  -- Every command keeps it.
  pub command-Keyed :
      (r : Replica env) (req : Request)
      → IsKeyed env r
      → Holds (λ (q : Replica env × Status). IsKeyed env q.0) (Replica.command env r req)
  unfolding Replica.command Replica.register Replica.read Replica.stat Replica.write
  command-Keyed r req h =
      Holds-if KeyedIn (is_some req.register) _ _
        (Holds-check KeyedIn _ _ (of_result _ (add_owner-IsKeyed (sid_of req) r.owned h)))
        (Holds-if KeyedIn req.unregister _ _ (unregister-Keyed r (sid_of req) h) (
          Holds-elim KeyedIn req.create _ _
            (Holds-elim KeyedIn req.delete _ _
              (Holds-elim KeyedIn req.read _ _
                (Holds-elim KeyedIn req.write _ _
                  (Holds-elim KeyedIn req.stat _ _
                    (Holds-if KeyedIn (is_some req.watch) _ _ (of_result _ h) (of_result _ h))
                    (λ path. Holds-check KeyedIn _ _ (of_result _ h)))
                  (λ w. of_result _ h))
                (λ path. Holds-check KeyedIn _ _ (of_result _ h)))
              (λ path. delete-Keyed r (sid_of req) path h))
            (λ c. create-Keyed r (sid_of req) c h)))
