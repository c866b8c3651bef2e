-- ===== src/Replica/Commands.antt =====
-- Every command of the log does to the replica what the replica alone decides.
use pyxis.Prelude.{
  ℕ, Bytes, false, not, ◌&&◌, Option, none, some, ◌≡◌, refl, sym, ap, ◌∙◌, arith, Bool-cases,
  Option-cases, inl, inr, if◌then◌else◌, fun_ext, subst,
}
use pyxis.Maps.{find}
use pyxis.Maps.Keys.{nat_key}
use pyxis.Common.Status
use pyxis.Common.Status.{Status, is_ok}
use pyxis.Db.{Env}
use pyxis.Db.Laws.{IsEnv}
use pyxis.Node
use pyxis.Node.{is_ephemeral}
use pyxis.Server.Nodes.{valid-starts_at_root, write-valid}
use pyxis.Store.{Store, Run, returns, aborts, get}
use pyxis.Store
use pyxis.Store.Saved.{add_session, remove_session}
use pyxis.Store.Create.{create-Passed, IsOpen-path, IsOpen-parent}
use pyxis.Watch
use pyxis.Sessions.{Session, new_session, bind_node, to_protobuf, remove_watch}
use pyxis.Sessions
use pyxis.Sessions.Manager.{get_session}
use pyxis.Server.{Server}
use pyxis.Messages.{Request, CreateRequest, WriteRequest, sid_of, is_some}
use pyxis.Server.Calls.{delete_node, destroy_session, remove_watches, delete_nodes}
use pyxis.Server.Commands.{
  on_register, on_unregister, on_create, on_delete, on_write, bind_created, add_to_manager,
  remove_from_manager,
}
use pyxis.Server.Holds.{held_by, of_result}
use pyxis.Replica
use pyxis.Replica.{Owner, owner, set_at, add_owner, Replica, replica_of, IsKeyed, IsKeyedMap}
use pyxis.Replica.Calm.{put_session-owned}
use pyxis.Replica.Mirror.{
  seen, seen-chain, both, triger_both-seen, delete_node-seen, delete_nodes-seen, triger-seen,
  seen-if, both_of,
}
use pyxis.Replica.Sessions.{owners, add-owners, closed-owners, closed-owners}
use pyxis.Server.Holds.{held_by}
use pyxis.Replica.Keyed.{bind-Keyed, unset-IsKeyed}

is_some-owner : (o : Option Session) → is_some (owner o) ≡ is_some o
is_some-owner none = refl
is_some-owner (some x) = refl

module _ (env : Env) (l : IsEnv env) (add_ms : ℕ → ℕ → ℕ) (now : ℕ) where
  pub register-seen :
      (s : Server env) (req : Request)
      → seen (both_of env) (on_register env add_ms now s req)
        ≡ Replica.register env
            (replica_of env s)
            (sid_of req)
            (elim req.register [ none ↦ 0 | some t ↦ t ])
  unfolding on_register add_to_manager Replica.register to_protobuf
  register-seen s req =
      let timeout : ℕ = elim req.register [ none ↦ 0 | some t ↦ t ] in
      let (m, e, w) = add-owners add_ms now s.manager (sid_of req) timeout in
      let wrote = add_session env s.store (to_protobuf (new_session now (sid_of req) timeout)) in
      elim (Bool-cases (is_ok wrote.1)) [
        | inl b ↦
            rw (b, e, on_register, Replica.register)
              (ap
                (λ (f : ℕ → Option Owner).
                  returns (record { store = wrote.0; owned = f }, Status.ok))
                (fun_ext w))
        | inr b ↦ rw (b, on_register, Replica.register) refl
      ]

  bind-seen :
      (s : Server env) (sid : ℕ) (path : Bytes)
      → seen (replica_of env) (bind_created env add_ms now s sid path)
        ≡ Replica.bind env (replica_of env s) sid path
  unfolding bind_created Replica.bind bind_node
  bind-seen s sid path = elim (Option-cases (find sid s.manager.sessions)) [
    | inl h ↦ rw (h, bind_created, Replica.bind) refl
    | inr (x, h) ↦
        rw (h, bind_created, Replica.bind)
          (ap returns (put_session-owned env now s (bind_node x path)))
  ]

  bound-Keyed :
      (s : Server env) (sid : ℕ) (req : CreateRequest) (u : Server env)
      → IsKeyed env (replica_of env s)
      → (if is_ephemeral req.flags then bind_created env add_ms now s sid req.path else returns s)
        ≡ returns u
      → IsKeyed env (replica_of env u)
  bound-Keyed s sid req u keyed ran = elim (Bool-cases (is_ephemeral req.flags)) [
    | inl b ↦
        let bound : bind_created env add_ms now s sid req.path ≡ returns u =
          ap (λ z. if z then bind_created env add_ms now s sid req.path else returns s) (sym b)
          ∙ ran in
        held_by (IsKeyed env) (Replica.bind env (replica_of env s) sid req.path) (replica_of env u)
          (bind-Keyed env (replica_of env s) sid req.path keyed)
          (sym (bind-seen s sid req.path) ∙ ap (seen (replica_of env)) bound)
    | inr b ↦
        let same : returns s ≡ returns u =
          ap (λ z. if z then bind_created env add_ms now s sid req.path else returns s) (sym b)
          ∙ ran in
        held_by (λ v. IsKeyed env (replica_of env v)) (returns s) u (of_result s keyed) same
  ]

  pub write-seen :
      (s : Server env) (req : WriteRequest)
      → IsKeyed env (replica_of env s)
      → seen (both env) (on_write env add_ms now s req) ≡ Replica.write env (replica_of env s) req
  unfolding on_write Replica.write
  write-seen s req keyed =
      let wrote = Store.write env s.store req.path req.content in
      elim (Bool-cases (is_ok wrote.1)) [
        | inr b ↦ rw (b, on_write, Replica.write) refl
        | inl b ↦
            rw (b, on_write, Replica.write)
              (triger-seen env now (both env) (record s { store = wrote.0 })
                (record { node = req.path; type = Watch.modify }) (λ t. returns (t, wrote.1))
                (λ q. returns (q, wrote.1))
                (valid-starts_at_root req.path (write-valid env s.store req.path req.content b))
                keyed (λ t. refl))
      ]

  pub create-seen :
      (s : Server env) (sid : ℕ) (req : CreateRequest)
      → IsKeyed env (replica_of env s)
      → seen (both env) (on_create env add_ms now s sid req)
        ≡ Replica.create env (replica_of env s) sid req
  unfolding on_create Replica.create
  create-seen s sid req keyed =
      let made = Store.create env s.store req.path req.content req.flags sid in
      let t : Server env = record s { store = made.0 } in
      rw (is_some-owner (find sid s.manager.sessions), Replica.create)
        (seen-if (both env) (not (is_some (find sid s.manager.sessions)) && is_ephemeral req.flags)
          _ _ _ _ (λ _. refl)
          (λ _.
            seen-if (both env) (not (is_ok made.1)) _ _ _ _ (λ _. refl)
              (λ b.
                let c =
                  create-Passed env s.store req.path req.content req.flags sid (ground arith) in
                seen-chain (replica_of env) (both env)
                  (if is_ephemeral req.flags
                    then bind_created env add_ms now t sid req.path
                    else returns t)
                  _ _ _
                  (seen-if (replica_of env) (is_ephemeral req.flags) _ _ _ _
                    (λ _. bind-seen t sid req.path) (λ _. refl))
                  (λ u ran.
                    triger_both-seen env now (both env) u req.path Watch.create
                      (λ v. returns (v, Status.ok)) (λ q. returns (q, Status.ok))
                      (valid-starts_at_root _
                        (IsOpen-path env s.store req.path req.content req.flags sid l c).1)
                      (valid-starts_at_root _
                        (IsOpen-parent env s.store req.path req.content req.flags sid l c).1)
                      (bound-Keyed t sid req u keyed ran) (λ v. refl)))))

  pub delete-seen :
      (s : Server env) (sid : ℕ) (path : Bytes)
      → IsKeyed env (replica_of env s)
      → seen (both env) (on_delete env add_ms now s sid path)
        ≡ Replica.delete env (replica_of env s) sid path
  unfolding on_delete Replica.delete Sessions.remove_node
  delete-seen s sid path keyed = elim (Bool-cases (is_ok (get env s.store path Node.empty).0)) [
    | inr b ↦ rw (b, on_delete, Replica.delete) refl
    | inl b ↦
        rw (b, on_delete, Replica.delete)
          (seen-chain (both env) (both env) (delete_node env now s path) _ _ _
            (delete_node-seen env l now s path keyed)
            (λ r e. elim (Bool-cases (is_ok r.1)) [
              | inr c ↦ rw c refl
              | inl c ↦ elim (Option-cases (get_session r.0.manager sid)) [
                | inl h ↦ rw (c, h) refl
                | inr (x, h) ↦
                    rw (c, h)
                      (ap (λ q. returns (q, Status.ok))
                        (put_session-owned env now r.0 (Sessions.remove_node x path)))
              ]
            ]))
  ]

  pub unregister-seen :
      (s : Server env) (req : Request)
      → IsKeyed env (replica_of env s)
      → seen (both env) (on_unregister env add_ms now s req)
        ≡ Replica.unregister env (replica_of env s) (sid_of req)
  unfolding on_unregister remove_from_manager destroy_session Replica.unregister
  unregister-seen s req keyed = elim (Option-cases (find (sid_of req) s.manager.sessions)) [
    | inl h ↦ rw (h, on_unregister, Replica.unregister) refl
    | inr (x, h) ↦
        let sid : ℕ = sid_of req in
        let closed : Session = record x { active = false } in
        let at : x.sid ≡ sid = keyed sid x.sid x.nodes (ap owner h) in
        let (m, e, same) = closed-owners s.manager sid x h at in
        let row = remove_session env s.store sid in
        let left : Server env = record s {
          store = row.0;
          manager = m;
          watchers = remove_watches env now s.watchers x.watches;
        } in
        let keyed' : IsKeyedMap (set_at sid none (owners s.manager)) =
          unset-IsKeyed sid (owners s.manager) keyed in
        let swept : seen (replica_of env) (delete_nodes env now left x.sid x.nodes)
            ≡ Replica.remove_nodes env (record { store = row.0; owned = owners m }) x.sid x.nodes =
          delete_nodes-seen env l now x.nodes left x.sid (subst IsKeyedMap (sym same) keyed') in
        elim (Bool-cases (is_ok row.1)) [
          | inr b ↦ rw (h, e, b, on_unregister, Replica.unregister) refl
          | inl b ↦
              rw (h, e, b, on_unregister, Replica.unregister)
                (seen-chain (replica_of env) (both env) (delete_nodes env now left x.sid x.nodes) _
                  _ _
                  (swept
                    ∙ ap
                        (λ f.
                          Replica.remove_nodes env (record { store = row.0; owned = f }) x.sid
                            x.nodes)
                        same)
                  (λ q _. refl))
        ]
  ]
