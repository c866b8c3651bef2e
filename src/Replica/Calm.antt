-- ===== src/Replica/Calm.antt =====
-- What leaves the replica of a server as it is: watches, events to sessions, and answers.
use pyxis.Prelude.{
  ℕ, suc, Bytes, List, [], ◌∷◌, Option, some, ◌≡◌, refl, sym, ap, ◌∙◌, ◌==◌, ==_iff, fun_ext, subst,
  arith, Bool-cases, Option-cases, inl, inr, length,
}
use pyxis.Maps.{find, find-assign}
use pyxis.Maps.Keys.{nat_key}
use pyxis.Db.{Env}
use pyxis.Watch.{Event, Watcher, triger_fuel}
use pyxis.Sessions.{Session, Answer, ping_back, pending_watcher, remove_watch}
use pyxis.Server.{Server, deliver, is_leader}
use pyxis.Server.Calls.{put_session, watch_callback, notify_all, triger, triger_both}
use pyxis.Replica.{Owner, owner, replica_of, IsKeyed, Store, set_at}
use pyxis.Server.Holds.{Holds, of_none, Holds-chain, of_result, weakened}

module _ (env : Env) where
  -- Where every session stands at its own id, the replica is the same.
  abbrev pub Calm : Server env → Server env → Type 0
  Calm s t = IsKeyed env (replica_of env s) → replica_of env t ≡ replica_of env s

  pub Calm-trans : (s t u : Server env) → Calm s t → Calm t u → Calm s u
  Calm-trans s t u h g k = g (subst (IsKeyed env) (sym (h k)) k) ∙ h k

  -- Servers with the same store and the same owners.
  pub replica-ext :
      (s t : Server env)
      → t.store ≡ s.store
      → ((k : ℕ) → owner (find k t.manager.sessions) ≡ owner (find k s.manager.sessions))
      → replica_of env t ≡ replica_of env s
  replica-ext s t e h =
      ap (λ (st : Store env). record { store = st; owned = λ k. owner (find k t.manager.sessions) })
        e
      ∙ ap (λ (f : ℕ → Option Owner). record { store = s.store; owned = f }) (fun_ext h)

  own_id : (y x : Session) → owner (some y) ≡ owner (some x) → y.sid ≡ x.sid
  own_id y x e = ground (arith, e)

  module _ (now : ℕ) where
    -- A session that is put back owns what it says.
    pub put_session-owned :
        (s : Server env) (y : Session)
        → replica_of env (put_session env now s y) ≡ record (replica_of env s) {
          owned = set_at y.sid (owner (some y)) (replica_of env s).owned;
        }
    unfolding set_at
    put_session-owned s y =
        ap (λ (f : ℕ → Option Owner). record { store = s.store; owned = f })
          (fun_ext (λ j. ground (arith, find-assign y.sid j y s.manager.sessions)))

    -- A session that is put back with its id and its nodes.
    pub put_session-Calm :
        (s : Server env) (k : ℕ) (x y : Session)
        → find k s.manager.sessions ≡ some x
        → owner (some y) ≡ owner (some x)
        → Calm s (put_session env now s y)
    put_session-Calm s k x y h e keyed =
        let at : y.sid ≡ k = own_id y x e ∙ keyed k x.sid x.nodes (ap owner h) in
        replica-ext s (put_session env now s y) refl (λ j. elim (Bool-cases (y.sid == j)) [
          | inl b ↦
              let there : k ≡ j = sym at ∙ (==_iff y.sid j).0 b in
              ap owner (find-assign y.sid j y s.manager.sessions)
              ∙ rw b (e ∙ sym (ap owner (subst (λ i. find i s.manager.sessions ≡ some x) there h)))
          | inr b ↦ ap owner (find-assign y.sid j y s.manager.sessions) ∙ rw b refl
        ])

    deliver-same :
        (answers : List Answer) (s : Server env)
        → replica_of env (deliver env s answers) ≡ replica_of env s
    deliver-same [] s = refl
    deliver-same (a ∷ answers) s = elim (Option-cases a.watch) [
      | inl e ↦ rw (e, deliver) (deliver-same answers s)
      | inr (w, e) ↦ rw (e, deliver) (deliver-same answers _)
    ]

    pub deliver-Calm :
        (s t : Server env) (answers : List Answer) → Calm s t → Calm s (deliver env t answers)
    deliver-Calm s t answers h k = deliver-same answers t ∙ h k

    -- PingBack leaves a session its id and its nodes.
    pub ping_back-owner : (x : Session) → owner (some (ping_back now x).0) ≡ owner (some x)
    unfolding ping_back
    ping_back-owner x = ground arith

    pinged-owner :
        (x : Session) (w : Watcher) (e : Event)
        → owner (some (remove_watch (ping_back now (pending_watcher x w.path e)).0 w))
          ≡ owner (some x)
    unfolding remove_watch pending_watcher ping_back
    pinged-owner x w e = ground arith

    unwatched-owner : (x : Session) (w : Watcher) → owner (some (remove_watch x w)) ≡ owner (some x)
    unfolding remove_watch
    unwatched-owner x w = refl

    watch_callback-Calm :
        (s : Server env) (w : Watcher) (e : Event) → Calm s (watch_callback env now s w e)
    unfolding watch_callback
    watch_callback-Calm s w e = elim (Option-cases (find w.sid s.manager.sessions)) [
      | inl h ↦ rw (h, watch_callback) (λ k. refl)
      | inr (x, h) ↦ elim (Bool-cases (is_leader s.state)) [
        | inl b ↦
            let (pinged, answers) = ping_back now (pending_watcher x w.path e) in
            rw (h, b, watch_callback)
              (deliver-Calm s (put_session env now s (remove_watch pinged w)) answers
                (put_session-Calm s w.sid x (remove_watch pinged w) h (pinged-owner x w e)))
        | inr b ↦
            rw (h, b, watch_callback)
              (put_session-Calm s w.sid x (remove_watch x w) h (unwatched-owner x w))
      ]
    ]

    notify_all-Calm :
        (s : Server env) (ws : List Watcher) (e : Event) → Calm s (notify_all env now s ws e)
    unfolding notify_all
    notify_all-Calm s [] e = λ k. refl
    notify_all-Calm s (w ∷ ws) e =
        Calm-trans s (watch_callback env now s w e) (notify_all env now s (w ∷ ws) e)
          (watch_callback-Calm s w e) (notify_all-Calm (watch_callback env now s w e) ws e)

    pub triger-Calm : (s : Server env) (e : Event) → Holds (Calm s) (triger env now s e)
    unfolding triger
    triger-Calm s e = elim (Option-cases (triger_fuel (suc (length e.node)) e s.watchers)) [
      | inl h ↦ rw (h, triger) of_none
      | inr (f, h) ↦
          rw (h, triger)
            (of_result _ (notify_all-Calm (record s { watchers = f.left }) f.notified e))
    ]

    pub triger_both-Calm :
        (s : Server env) (path : Bytes) (type : ℕ)
        → Holds (Calm s) (triger_both env now s path type)
    unfolding triger_both
    triger_both-Calm s path type =
        Holds-chain (Calm s) (Calm s) (triger env now s (record { node = path; type = type })) _
          (triger-Calm s (record { node = path; type = type }))
          (λ t k. weakened (Calm t) (Calm s) _ (λ u h. Calm-trans s t u k h) (triger-Calm t _))
