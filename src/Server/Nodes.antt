-- ===== src/Server/Nodes.antt =====
-- The commands on nodes always return, and keep the store a tree.
use pyxis.Prelude.{
  ℕ, Bytes, true, false, not, ◌&&◌, List, [], ◌∷◌, ◌≡◌, refl, sym, ◌∙◌, subst, arith, if◌then◌else◌,
  inl, inr, Bool-cases, Option-cases,
}
use pyxis.Maps.{find}
use pyxis.Maps.Keys.{nat_key}
use pyxis.Common.Status
use pyxis.Common.Status.{Status, is_ok}
use pyxis.Paths.{split_path, is_valid_path, starts_at_root}
use pyxis.Node
use pyxis.Node.{Node, is_ephemeral}
use pyxis.Db.{Env}
use pyxis.Db.Laws.{IsEnv}
use pyxis.Store.{Store, Run, returns, aborts, get}
use pyxis.Store
use pyxis.Store.Invariant.{IsStore, create-IsStore, delete-IsStore, write-IsStore}
use pyxis.Store.Create.{create-Passed, IsOpen-path, IsOpen-parent}
use pyxis.Store.Delete.{delete-cases, delete-IsOpen, delete-IsOpen_parent}
use pyxis.Watch
use pyxis.Watch.{Event, Watcher, triger_fuel}
use pyxis.Watch.Ancestors.{triger_total}
use pyxis.Sessions.{Answer, ping_back, pending_watcher, remove_watch, bind_node, remove_node}
use pyxis.Sessions.Manager.{get_session}
use pyxis.Server.{Server, is_leader, deliver}
use pyxis.Messages.{CreateRequest, WriteRequest, is_some}
use pyxis.Server.Calls.{put_session, watch_callback, notify_all, triger, triger_both, delete_node}
use pyxis.Server.Commands.{on_create, on_delete, on_write, bind_created, expired}

pub valid-starts_at_root : (p : Bytes) → is_valid_path p ≡ true → starts_at_root p ≡ true
unfolding is_valid_path
valid-starts_at_root p h = ground arith

pub write-valid :
    (env : Env) (s : Store env) (p content : Bytes)
    → is_ok (Store.write env s p content).1 ≡ true
    → is_valid_path p ≡ true
unfolding Store.write get
write-valid env s p content h = ground arith

pub deleted-open :
    (env : Env) (l : IsEnv env) (s : Store env) (path : Bytes) (r : Store env × Status)
    → Store.delete env s path ≡ returns r
    → is_ok r.1 ≡ true
    → (starts_at_root path ≡ true) × (starts_at_root (split_path path).parent ≡ true)
deleted-open env l s path r h b = elim (delete-cases env s path) [
  | inl (st, e, w) ↦ absurd (ground arith)
  | inr (inl (c, _, e)) ↦ absurd (ground arith)
  | inr (inr (parent', c, _, e)) ↦ (
    valid-starts_at_root _ (delete-IsOpen env s path l c).1,
    valid-starts_at_root _ (delete-IsOpen_parent env s path l c).1,
  )
]

deliver-store :
    (env : Env) (answers : List Answer) (s : Server env) → (deliver env s answers).store ≡ s.store
deliver-store env [] s = refl
deliver-store env (a ∷ answers) s = elim (Option-cases a.watch) [
  | inl e ↦ ground (arith, deliver-store env answers s)
  | inr (w, e) ↦ rw e (deliver-store env answers _)
]

module _ (env : Env) (now : ℕ) where
  watch_callback-store :
      (s : Server env) (w : Watcher) (e : Event) → (watch_callback env now s w e).store ≡ s.store
  unfolding watch_callback
  watch_callback-store s w e = elim (Option-cases (find w.sid s.manager.sessions)) [
    | inl h ↦ rw (h, watch_callback) refl
    | inr (x, h) ↦
        let (pinged, answers) = ping_back now (pending_watcher x w.path e) in
        let delivered : (deliver env (put_session env now s (remove_watch pinged w)) answers).store
            ≡ s.store =
          deliver-store env answers (put_session env now s (remove_watch pinged w)) in
        rw (h, watch_callback)
          (elim (Bool-cases (is_leader s.state)) [ inl b ↦ rw b delivered | inr b ↦ rw b refl ])
  ]

  notify_all-store :
      (s : Server env) (ws : List Watcher) (e : Event) → (notify_all env now s ws e).store ≡ s.store
  unfolding notify_all
  notify_all-store s [] e = refl
  notify_all-store s (w ∷ ws) e =
      notify_all-store (watch_callback env now s w e) ws e ∙ watch_callback-store s w e

  -- Triger returns, and leaves the store.
  pub triger-returns :
      (s : Server env) (e : Event)
      → starts_at_root e.node ≡ true
      → (t : Server env) × (triger env now s e ≡ returns t) × (t.store ≡ s.store)
  unfolding triger
  triger-returns s e h =
      let (f, w) = triger_total e s.watchers h in
      (
        notify_all env now (record s { watchers = f.left }) f.notified e,
        rw (w, triger) refl,
        notify_all-store _ f.notified e,
      )

  pub triger_both-returns :
      (s : Server env) (path : Bytes) (type : ℕ)
      → starts_at_root path ≡ true
      → starts_at_root (split_path path).parent ≡ true
      → (t : Server env) × (triger_both env now s path type ≡ returns t) × (t.store ≡ s.store)
  unfolding triger_both
  triger_both-returns s path type h g =
      let (t, e, f) = triger-returns s (record { node = path; type = type }) h in
      let (u, i, j) =
        triger-returns t (record { node = (split_path path).parent; type = Watch.children }) g in
      (u, rw e i, j ∙ f)

module _ (env : Env) (l : IsEnv env) (add_ms : ℕ → ℕ → ℕ) (now : ℕ) (s : Server env)
    (v : IsStore env s.store) where
  -- onWrite always returns, and keeps the store a tree.
  pub on_write-returns :
      (req : WriteRequest)
      → (r : Server env × Status) × (on_write env add_ms now s req ≡ returns r)
        × IsStore env r.0.store
  unfolding on_write
  on_write-returns req =
      let wrote : Store env × Status = Store.write env s.store req.path req.content in
      let kept : IsStore env wrote.0 = write-IsStore env l s.store v req.path req.content in
      elim (Bool-cases (is_ok wrote.1)) [
        | inr b ↦ ((record s { store = wrote.0 }, wrote.1), rw b refl, kept)
        | inl b ↦
            let (t, e, f) =
              triger-returns env now (record s { store = wrote.0 })
                (record { node = req.path; type = Watch.modify })
                (valid-starts_at_root req.path (write-valid env s.store req.path req.content b)) in
            ((t, wrote.1), rw (b, e) refl, subst (IsStore env) (sym f) kept)
      ]

  bound :
      (t : Server env) (sid : ℕ) (req : CreateRequest)
      → (not (is_some (get_session t.manager sid)) && is_ephemeral req.flags) ≡ false
      → (u : Server env) × ((if is_ephemeral req.flags
            then bind_created env add_ms now t sid req.path
            else returns t)
          ≡ returns u)
        × (u.store ≡ t.store)
  unfolding bind_created
  bound t sid req g = elim (Bool-cases (is_ephemeral req.flags)) [
    | inr b ↦ (t, rw b refl, refl)
    | inl b ↦ elim (Option-cases (get_session t.manager sid)) [
      | inl h ↦ absurd (ground arith)
      | inr (x, h) ↦
          (put_session env now t (bind_node x req.path), rw (b, h, bind_created) refl, refl)
    ]
  ]

  -- onCreate always returns, and keeps the store a tree.
  pub on_create-returns :
      (sid : ℕ) (req : CreateRequest)
      → (r : Server env × Status) × (on_create env add_ms now s sid req ≡ returns r)
        × IsStore env r.0.store
  unfolding on_create bind_created
  on_create-returns sid req =
      let made : Store env × Status = Store.create env s.store req.path req.content req.flags sid in
      let kept : IsStore env made.0 =
        create-IsStore env l s.store v req.path req.content req.flags sid in
      elim (Bool-cases (not (is_some (get_session s.manager sid)) && is_ephemeral req.flags)) [
        | inl g ↦ ((s, expired), rw (g, on_create) refl, v)
        | inr g ↦ elim (Bool-cases (is_ok made.1)) [
          | inr b ↦ ((record s { store = made.0 }, made.1), rw (g, b, on_create) refl, kept)
          | inl b ↦
              let c = create-Passed env s.store req.path req.content req.flags sid b in
              let (t, e, f) = bound (record s { store = made.0 }) sid req g in
              let (u, i, j) =
                triger_both-returns env now t req.path Watch.create
                  (valid-starts_at_root _
                    (IsOpen-path env s.store req.path req.content req.flags sid l c).1)
                  (valid-starts_at_root _
                    (IsOpen-parent env s.store req.path req.content req.flags sid l c).1) in
              (
                (u, Status.ok),
                rw (g, b, e, i, on_create) refl,
                subst (IsStore env) (sym (j ∙ f)) kept,
              )
        ]
      ]

  -- DeleteNode always returns, and keeps the store a tree.
  delete_node-returns :
      (path : Bytes)
      → (r : Server env × Status) × (delete_node env now s path ≡ returns r) × IsStore env r.0.store
  unfolding delete_node
  delete_node-returns path =
      let (r, e, kept) = delete-IsStore env l s.store v path in
      elim (Bool-cases (is_ok r.1)) [
        | inr b ↦ ((record s { store = r.0 }, r.1), rw (e, b) refl, kept)
        | inl b ↦
            let (open_, above) = deleted-open env l s.store path r e b in
            let (t, i, j) =
              triger_both-returns env now (record s { store = r.0 }) path Watch.delete open_
                above in
            ((t, Status.ok), rw (e, b, i, delete_node) refl, subst (IsStore env) (sym j) kept)
      ]

  -- onDelete always returns, and keeps the store a tree.
  pub on_delete-returns :
      (sid : ℕ) (path : Bytes)
      → (r : Server env × Status) × (on_delete env add_ms now s sid path ≡ returns r)
        × IsStore env r.0.store
  unfolding on_delete
  on_delete-returns sid path =
      let found : Status × Node = get env s.store path Node.empty in
      let (r, e, kept) = delete_node-returns path in
      elim (Bool-cases (is_ok found.0)) [
        | inr b ↦ ((s, found.0), rw (b, on_delete) refl, v)
        | inl b ↦ elim (Bool-cases (is_ok r.1)) [
          | inr c ↦ (r, rw (b, e, c, on_delete) refl, kept)
          | inl c ↦ elim (Option-cases (get_session r.0.manager sid)) [
            | inl h ↦ ((r.0, expired), rw (b, e, c, h, on_delete) refl, kept)
            | inr (x, h) ↦ (
              (put_session env now r.0 (remove_node x path), Status.ok),
              rw (b, e, c, h, on_delete) refl,
              kept,
            )
          ]
        ]
      ]
