-- ===== src/Server/KeptCommands.antt =====
-- The commands of the log leave the queue of requests, the broadcasts and the state as they are.
use pyxis.Prelude.{
  ℕ, Bytes, false, not, ◌&&◌, some, ◌≡◌, refl, arith, Option-cases, inl, inr, if◌then◌else◌,
}
use pyxis.Maps.Keys.{nat_key}
use pyxis.Common.Status
use pyxis.Common.Status.{Status, is_ok, is_not_found}
use pyxis.Db.{Env}
use pyxis.Node
use pyxis.Node.{is_ephemeral}
use pyxis.Store.{Run, returns, aborts, get}
use pyxis.Store
use pyxis.Watch
use pyxis.Sessions.Manager
use pyxis.Store.Saved.{remove_session}
use pyxis.Watch.{Event, Watcher, triger_fuel}
use pyxis.Sessions.{Session}
use pyxis.Sessions.Manager.{get_session}
use pyxis.Server.{Server, chain}
use pyxis.Messages.{Request, CreateRequest, WriteRequest, sid_of, is_some, no_response}
use pyxis.Server.Calls.{put_session, triger, triger_both, delete_node, destroy_session}
use pyxis.Server.Commands.{
  add_to_manager, remove_from_manager, on_register, on_unregister, bind_created, on_create,
  on_delete, on_write, on_watch, on_read, on_stat, run_command, or_aborts,
}
use pyxis.Server.Holds.{
  Holds, Holds-chain, Holds-check, Holds-after, Holds-if, Holds-elim, of_result, of_none,
}
use pyxis.Server.Kept.{
  core, Keeps, KeepsIn, triger-Keeps, onward, triger_both-Keeps, with_status, delete_node-Keeps,
  destroy_session-Keeps,
}

module _ (env : Env) (now : ℕ) where
  module _ (add_ms : ℕ → ℕ → ℕ) where
    add_to_manager-Keeps :
        (s : Server env) (x : Session) → Holds (Keeps env now s) (add_to_manager env add_ms now s x)
    unfolding add_to_manager
    add_to_manager-Keeps s x =
        Holds-check (Keeps env now s) _ _
          (Holds-after (Keeps env now s) _ _ (λ m. of_result _ refl))

    remove_from_manager-Keeps :
        (s : Server env) (sid : ℕ)
        → Holds (Keeps env now s) (remove_from_manager env add_ms now s sid)
    unfolding remove_from_manager
    remove_from_manager-Keeps s sid =
        Holds-after (Keeps env now s) (or_aborts (Manager.remove sid s.manager)) _ (λ m.
          Holds-check (Keeps env now s) (is_ok (remove_session env s.store sid).1) _
            (of_result _ refl))

    on_unregister-Keeps :
        (s : Server env) (req : Request)
        → Holds (KeepsIn env now s) (on_unregister env add_ms now s req)
    unfolding on_unregister
    on_unregister-Keeps s req = elim (Option-cases (get_session s.manager (sid_of req))) [
      | inl h ↦ rw (h, on_unregister) (of_result _ refl)
      | inr (x, h) ↦
          let closed : Session = record x { active = false } in
          rw (h, on_unregister)
            (Holds-chain (Keeps env now s) (KeepsIn env now s)
              (remove_from_manager env add_ms now (put_session env now s closed) (sid_of req)) _
              (onward env now s (put_session env now s closed) _ refl
                (remove_from_manager-Keeps (put_session env now s closed) (sid_of req)))
              (λ t k.
                with_status env now s t (destroy_session env now t closed) Status.ok k
                  (destroy_session-Keeps env now t closed)))
    ]

    bind_created-Keeps :
        (s : Server env) (sid : ℕ) (path : Bytes)
        → Holds (Keeps env now s) (bind_created env add_ms now s sid path)
    unfolding bind_created
    bind_created-Keeps s sid path = elim (Option-cases (get_session s.manager sid)) [
      | inl h ↦ rw (h, bind_created) of_none
      | inr (x, h) ↦ rw (h, bind_created) (of_result _ refl)
    ]

    on_create-Keeps :
        (s : Server env) (sid : ℕ) (req : CreateRequest)
        → Holds (KeepsIn env now s) (on_create env add_ms now s sid req)
    unfolding on_create
    on_create-Keeps s sid req =
        let (store, st) = Store.create env s.store req.path req.content req.flags sid in
        let t : Server env = record s { store = store } in
        Holds-if (KeepsIn env now s)
          (not (is_some (get_session s.manager sid)) && is_ephemeral req.flags) _ _
          (of_result _ refl)
          (Holds-if (KeepsIn env now s) (not (is_ok st)) _ _ (of_result _ refl) (
            Holds-chain (Keeps env now s) (KeepsIn env now s)
              (if is_ephemeral req.flags
                then bind_created env add_ms now t sid req.path
                else returns t)
              _
              (Holds-if (Keeps env now s) (is_ephemeral req.flags) _ _
                (bind_created-Keeps t sid req.path) (of_result _ refl))
              (λ u k.
                with_status env now s u (triger_both env now u req.path Watch.create) Status.ok k
                  (triger_both-Keeps env now u req.path Watch.create))))

    on_delete-Keeps :
        (s : Server env) (sid : ℕ) (path : Bytes)
        → Holds (KeepsIn env now s) (on_delete env add_ms now s sid path)
    unfolding on_delete
    on_delete-Keeps s sid path =
        Holds-if (KeepsIn env now s) (not (is_ok (get env s.store path Node.empty).0)) _ _
          (of_result _ refl)
          (Holds-chain (KeepsIn env now s) (KeepsIn env now s) (delete_node env now s path) _
            (delete_node-Keeps env now s path)
            (λ r k. Holds-if (KeepsIn env now s) (not (is_ok r.1)) _ _ (of_result r k) (
              Holds-elim (KeepsIn env now s) (get_session r.0.manager sid) _ _ (of_result _ k)
                (λ x. of_result _ k))))

    on_write-Keeps :
        (s : Server env) (req : WriteRequest)
        → Holds (KeepsIn env now s) (on_write env add_ms now s req)
    unfolding on_write
    on_write-Keeps s req =
        let (store, st) = Store.write env s.store req.path req.content in
        let t : Server env = record s { store = store } in
        let e : Event = record { node = req.path; type = Watch.modify } in
        Holds-if (KeepsIn env now s) (not (is_ok st)) _ _ (of_result _ refl)
          (with_status env now s t (triger env now t e) st refl (triger-Keeps env now t e))

    pub on_watch-Keeps :
        (s : Server env) (req : Request) → Keeps env now s (on_watch env add_ms now s req).0
    unfolding on_watch
    on_watch-Keeps s req = ground arith

    -- A result with two more parts.
    abbrev pub KeepsWith : {X : Type 0} → Server env → Server env × Status × X → Type 0
    KeepsWith s (t, st, x) = core env now t ≡ core env now s

    on_read-Keeps :
        (s : Server env) (req : Request) (path : Bytes)
        → Holds (KeepsWith s) (on_read env add_ms now s req path)
    unfolding on_read
    on_read-Keeps s req path = Holds-check (KeepsWith s) (is_some req.watch) _ (
        Holds-if (KeepsWith s) (not (is_ok (Store.read env s.store path).0)) _ _ (of_result _ refl)
          (of_result _ (on_watch-Keeps s req)))

    on_stat-Keeps :
        (s : Server env) (req : Request) (path : Bytes)
        → Holds (KeepsWith s) (on_stat env add_ms now s req path)
    unfolding on_stat
    on_stat-Keeps s req path =
        let st : Status = (get env s.store path Node.empty).0 in
        Holds-check (KeepsWith s) (is_some req.watch) _ (
          Holds-if (KeepsWith s) (is_ok st) _ _ (of_result _ (on_watch-Keeps s req)) (
            Holds-if (KeepsWith s) (is_not_found st) _ _ (of_result _ (on_watch-Keeps s req))
              (of_result _ refl)))

    plain-Keeps :
        (s : Server env) (r : Run (Server env × Status))
        → Holds (KeepsIn env now s) r
        → Holds (KeepsWith s) (chain r (λ x. returns (x.0, x.1, no_response)))
    plain-Keeps s r h = Holds-chain (KeepsIn env now s) (KeepsWith s) r _ h (λ x k. of_result _ k)

    filled-Keeps :
        (s : Server env) (r : Run (Server env × Status × Bytes))
        → Holds (KeepsWith s) r
        → Holds
            (KeepsWith s)
            (chain r (λ x. returns (x.0, x.1, record no_response { content = some x.2 })))
    filled-Keeps s r h = Holds-chain (KeepsWith s) (KeepsWith s) r _ h (λ x k. of_result _ k)

    on_register-Keeps :
        (s : Server env) (req : Request) → Holds (KeepsWith s) (on_register env add_ms now s req)
    unfolding on_register
    on_register-Keeps s req =
        Holds-chain (Keeps env now s) (KeepsWith s) _ _ (add_to_manager-Keeps s _)
          (λ t k. of_result _ k)

    pub run_command-Keeps :
        (s : Server env) (req : Request) → Holds (KeepsWith s) (run_command env add_ms now s req)
    unfolding run_command
    run_command-Keeps s req =
        Holds-if (KeepsWith s) (is_some req.register) _ _
          (Holds-chain (KeepsWith s) (KeepsWith s) _ _ (on_register-Keeps s req)
            (λ x k. of_result _ k))
          (Holds-if (KeepsWith s) req.unregister _ _ (plain-Keeps s _ (on_unregister-Keeps s req)) (
            Holds-elim (KeepsWith s) req.create _ _
              (Holds-elim (KeepsWith s) req.delete _ _
                (Holds-elim (KeepsWith s) req.read _ _
                  (Holds-elim (KeepsWith s) req.write _ _
                    (Holds-elim (KeepsWith s) req.stat _ _
                      (Holds-if (KeepsWith s) (is_some req.watch) _ _
                        (of_result _ (on_watch-Keeps s req)) (of_result _ refl))
                      (λ path. filled-Keeps s _ (on_stat-Keeps s req path)))
                    (λ w. plain-Keeps s _ (on_write-Keeps s w)))
                  (λ path. filled-Keeps s _ (on_read-Keeps s req path)))
                (λ path. plain-Keeps s _ (on_delete-Keeps s (sid_of req) path)))
              (λ c. plain-Keeps s _ (on_create-Keeps s (sid_of req) c))))
