-- ===== src/Server/Kept.antt =====
-- Triggers and deletions leave the queue of requests, the broadcasts and the state as they are.
use pyxis.Prelude.{
  ℕ, suc, Bytes, not, ◌||◌, List, [], ◌∷◌, ◌≡◌, refl, ◌∙◌, Bool-cases, Option-cases, inl, inr, ◌==◌,
  length,
}
use pyxis.Maps.{find}
use pyxis.Maps.Keys.{nat_key}
use pyxis.Common.Status
use pyxis.Common.Status.{Status, is_ok, is_not_found}
use pyxis.Db.{Env}
use pyxis.Node
use pyxis.Node.{is_ephemeral}
use pyxis.Store.{Run, returns, aborts, get}
use pyxis.Store
use pyxis.Watch.{Event, Watcher, triger_fuel}
use pyxis.Sessions.{Session, Answer, ping_back, pending_watcher}
use pyxis.Server.{Server, State, deliver, chain, is_leader}
use pyxis.Messages.{Request}
use pyxis.Server.Calls.{
  watch_callback, notify_all, triger, triger_both, delete_node, delete_nodes, destroy_session,
}
use pyxis.Server.Holds.{Holds, Holds-chain, Holds-check, Holds-after, of_result, of_none}

module _ (env : Env) (now : ℕ) where
  abbrev pub core : Server env → List ℕ × List Request × State
  core s = (s.requests, s.broadcast, s.state)

  abbrev pub Keeps : Server env → Server env → Type 0
  Keeps s t = core t ≡ core s

  abbrev pub KeepsIn : Server env → Server env × Status → Type 0
  KeepsIn s (t, st) = core t ≡ core s

  pub deliver-Keeps : (answers : List Answer) (s : Server env) → Keeps s (deliver env s answers)
  deliver-Keeps [] s = refl
  deliver-Keeps (a ∷ answers) s = elim (Option-cases a.watch) [
    | inl e ↦ rw (e, deliver) (deliver-Keeps answers s)
    | inr (w, e) ↦ rw (e, deliver) (deliver-Keeps answers _)
  ]

  watch_callback-Keeps :
      (s : Server env) (w : Watcher) (e : Event) → Keeps s (watch_callback env now s w e)
  unfolding watch_callback
  watch_callback-Keeps s w e = elim (Option-cases (find w.sid s.manager.sessions)) [
    | inl h ↦ rw (h, watch_callback) refl
    | inr (x, h) ↦ elim (Bool-cases (is_leader s.state)) [
      | inl b ↦
          rw (h, b, watch_callback) (deliver-Keeps (ping_back now (pending_watcher x w.path e)).1 _)
      | inr b ↦ rw (h, b, watch_callback) refl
    ]
  ]

  notify_all-Keeps :
      (s : Server env) (ws : List Watcher) (e : Event) → Keeps s (notify_all env now s ws e)
  unfolding notify_all
  notify_all-Keeps s [] e = refl
  notify_all-Keeps s (w ∷ ws) e =
      notify_all-Keeps (watch_callback env now s w e) ws e ∙ watch_callback-Keeps s w e

  pub triger-Keeps : (s : Server env) (e : Event) → Holds (Keeps s) (triger env now s e)
  unfolding triger
  triger-Keeps s e = elim (Option-cases (triger_fuel (suc (length e.node)) e s.watchers)) [
    | inl h ↦ rw (h, triger) of_none
    | inr (f, h) ↦
        rw (h, triger)
          (of_result _ (notify_all-Keeps (record s { watchers = f.left }) f.notified e))
  ]

  -- A step that keeps, behind one that did.
  pub onward :
      (s t : Server env) (r : Run (Server env)) → Keeps s t → Holds (Keeps t) r → Holds (Keeps s) r
  onward s t (returns _) k (of_result u h) = of_result u (h ∙ k)
  onward s t aborts k of_none = of_none

  pub triger_both-Keeps :
      (s : Server env) (path : Bytes) (type : ℕ) → Holds (Keeps s) (triger_both env now s path type)
  unfolding triger_both
  triger_both-Keeps s path type =
      Holds-chain (Keeps s) (Keeps s) (triger env now s (record { node = path; type = type })) _
        (triger-Keeps s (record { node = path; type = type }))
        (λ t k. onward s t _ k (triger-Keeps t _))

  -- A step that keeps, with a status.
  pub with_status :
      (s t : Server env) (r : Run (Server env)) (st : Status)
      → Keeps s t
      → Holds (Keeps t) r
      → Holds (KeepsIn s) (chain r (λ u. returns (u, st)))
  with_status s t r st k h =
      Holds-chain (Keeps s) (KeepsIn s) r (λ u. returns (u, st)) (onward s t r k h)
        (λ u j. of_result (u, st) j)

  pub delete_node-Keeps :
      (s : Server env) (path : Bytes) → Holds (KeepsIn s) (delete_node env now s path)
  unfolding delete_node
  delete_node-Keeps s path = Holds-after (KeepsIn s) (Store.delete env s.store path) _ (λ r.
      elim (Bool-cases (is_ok r.1)) [
        | inl h ↦ rw h (
            with_status s (record s { store = r.0 }) _ Status.ok refl
              (triger_both-Keeps (record s { store = r.0 }) path _))
        | inr h ↦ rw h (of_result _ refl)
      ])

  -- A step with a status that keeps, behind one that did, and then one more.
  onward_both :
      (s : Server env) (r : Run (Server env × Status)) (f : Server env × Status → Run (Server env))
      → Holds (KeepsIn s) r
      → ((u : Server env × Status) → Holds (Keeps u.0) (f u))
      → Holds (Keeps s) (chain r f)
  onward_both s r f h k =
      Holds-chain (KeepsIn s) (Keeps s) r f h (λ u j. onward s u.0 (f u) j (k u))

  delete_nodes-Keeps :
      (paths : List Bytes) (s : Server env) (sid : ℕ)
      → Holds (Keeps s) (delete_nodes env now s sid paths)
  unfolding delete_nodes
  delete_nodes-Keeps [] s sid = of_result s refl
  delete_nodes-Keeps (path ∷ paths) s sid =
      let (st, node) = get env s.store path Node.empty in
      elim (Bool-cases (is_not_found st || not (node.sid == sid))) [
        | inl h ↦ rw (h, delete_nodes) (delete_nodes-Keeps paths s sid)
        | inr h ↦
            rw (h, delete_nodes)
              (onward_both s (delete_node env now s path) _ (delete_node-Keeps s path)
                (λ u. Holds-check (Keeps u.0) _ _ (delete_nodes-Keeps paths u.0 sid)))
      ]

  pub destroy_session-Keeps :
      (s : Server env) (x : Session) → Holds (Keeps s) (destroy_session env now s x)
  unfolding destroy_session
  destroy_session-Keeps s x = delete_nodes-Keeps x.nodes _ x.sid
