-- ===== src/Replica/Events.antt =====
-- The events of clients, the timer and the changes of the raft state leave the replica as it is.
use pyxis.Prelude.{ℕ, Bytes, not, ◌&&◌, some, ◌≡◌, refl, Option-cases, inl, inr}
use pyxis.Maps.{find}
use pyxis.Maps.Keys.{nat_key}
use pyxis.Common.Status.{Status, is_ok, is_not_found}
use pyxis.Db.{Env}
use pyxis.Node
use pyxis.Store.{Run, returns, aborts, get}
use pyxis.Store
use pyxis.Sessions.{Session, ping_back, hold_ping, has_pending_watcher}
use pyxis.Sessions.Manager.{Manager, get_session, touch, gen_sid}
use pyxis.Server.{Server, Options}
use pyxis.Messages.{Request, sid_of, is_some}
use pyxis.Server.Calls.{put_session}
use pyxis.Server.Commands.{or_aborts}
use pyxis.Server.Events.{
  handle_event, handle_register, handle_local, handle_ping, handle_read, handle_stat,
  hold_and_answer, enqueue, need_broadcast,
}
use pyxis.Server.Holds.{
  both_ways, either_way, Holds, of_result, of_none, Holds-chain, Holds-if, Holds-elim,
}
use pyxis.Replica.Calm.{
  Calm, Calm-trans, deliver-Calm, put_session-Calm, replica-ext, ping_back-owner,
}
use pyxis.Replica.Sessions.{owner_at, touch-owners}
use pyxis.Replica.Dispatch.{on_watch-Calm}

module _ (env : Env) (add_ms : ℕ → ℕ → ℕ) (now : ℕ) where
  -- The same with a status.
  abbrev CalmIn : Server env → Server env × Status → Type 0
  CalmIn s p = Calm env s p.0

  -- A manager with the same owners.
  pub managed :
      (s : Server env) (m : Manager)
      → ((k : ℕ) → owner_at m.sessions k ≡ owner_at s.manager.sessions k)
      → Calm env s (record s { manager = m })
  managed s m h keyed = replica-ext env s (record s { manager = m }) refl h

  touch-Calm :
      (s : Server env) (sid : ℕ)
      → Holds
          (λ (m : Manager). Calm env s (record s { manager = m }))
          (or_aborts (touch add_ms now sid s.manager))
  touch-Calm s sid = elim (Option-cases (touch add_ms now sid s.manager)) [
    | inl h ↦ rw h of_none
    | inr (m, h) ↦
        rw h (of_result m (managed s m (λ k. touch-owners add_ms now s.manager m sid k h)))
  ]

  hold_and_answer-Calm :
      (s : Server env) (e k : ℕ) (x : Session)
      → find k s.manager.sessions ≡ some x
      → Calm env s (hold_and_answer env add_ms now s e x)
  unfolding hold_and_answer hold_ping
  hold_and_answer-Calm s e k x h =
      let held : Session = (hold_ping x e).0 in
      let (pinged, answers) = ping_back now held in
      both_ways (Calm env s) (has_pending_watcher held) _ _
        (deliver-Calm env now s (put_session env now s pinged) answers
          (put_session-Calm env now s k x pinged h (ping_back-owner env now held)))
        (put_session-Calm env now s k x held h refl)

  handle_ping-Calm :
      (s : Server env) (e sid : ℕ) → Holds (CalmIn s) (handle_ping env add_ms now s e sid)
  unfolding handle_ping
  handle_ping-Calm s e sid =
      Holds-elim (CalmIn s) (get_session s.manager sid) _ _ (of_result _ (λ k. refl)) (λ y.
        Holds-chain (λ (m : Manager). Calm env s (record s { manager = m })) (CalmIn s)
          (or_aborts (touch add_ms now sid s.manager)) _ (touch-Calm s sid)
          (λ m c.
            let t : Server env = record s { manager = m } in
            elim (Option-cases (get_session m sid)) [
              | inl h ↦ rw h of_none
              | inr (x, h) ↦ rw h (
                  of_result _ (
                    Calm-trans env s t (hold_and_answer env add_ms now t e x) c
                      (hold_and_answer-Calm t e sid x h)))
            ]))

  handle_read-Calm :
      (s : Server env) (e : ℕ) (req : Request) (path : Bytes)
      → CalmIn s (handle_read env add_ms now s e req path)
  unfolding handle_read
  handle_read-Calm s e req path =
      either_way (CalmIn s) (get_session s.manager (sid_of req)) _ _ (λ k. refl)
        (λ x.
          both_ways (CalmIn s) (not (is_ok (Store.read env s.store path).0)) _ _ (λ k. refl)
            (both_ways (CalmIn s) (is_some req.watch) _ _ (on_watch-Calm env add_ms now _ req)
              (λ k. refl)))

  handle_stat-Calm :
      (s : Server env) (e : ℕ) (req : Request) (path : Bytes)
      → CalmIn s (handle_stat env add_ms now s e req path)
  unfolding handle_stat
  handle_stat-Calm s e req path =
      let st : Status = (get env s.store path Node.empty).0 in
      either_way (CalmIn s) (get_session s.manager (sid_of req)) _ _ (λ k. refl)
        (λ x.
          both_ways (CalmIn s) (is_ok st) _ _
            (both_ways (CalmIn s) (is_some req.watch) _ _ (on_watch-Calm env add_ms now _ req)
              (λ k. refl))
            (both_ways (CalmIn s) (is_not_found st && is_some req.watch) _ _
              (on_watch-Calm env add_ms now s req) (λ k. refl)))

  handle_local-Calm :
      (s : Server env) (e : ℕ) (req : Request)
      → Holds (CalmIn s) (handle_local env add_ms now s e req)
  unfolding handle_local
  handle_local-Calm s e req = Holds-if (CalmIn s) req.ping _ _ (handle_ping-Calm s e (sid_of req)) (
      Holds-elim (CalmIn s) req.read _ _
        (Holds-elim (CalmIn s) req.stat _ _
          (Holds-if (CalmIn s) (is_some req.watch) _ _
            (of_result _ (on_watch-Calm env add_ms now s req)) (of_result _ (λ k. refl)))
          (λ path. of_result _ (handle_stat-Calm s e req path)))
        (λ path. of_result _ (handle_read-Calm s e req path)))

  handle_register-Calm :
      (o : Options) (s : Server env) (e : ℕ) (req : Request)
      → Calm env s (handle_register env add_ms now o s e req)
  unfolding handle_register enqueue gen_sid
  handle_register-Calm o s e req = elim (Option-cases req.sid) [
    | inl h ↦ rw (h, handle_register) (λ k. refl)
    | inr (sid, h) ↦ elim (Option-cases (get_session s.manager sid)) [
      | inl k ↦ rw (h, k, handle_register) (λ _. refl)
      | inr (x, k) ↦ rw (h, k, handle_register) (put_session-Calm env now s sid x _ k refl)
    ]
  ]

  -- handleEvent leaves the replica as it is: what changes it goes through the log.
  pub handle_event-Calm :
      (o : Options) (s : Server env) (e : ℕ) (req : Request)
      → Holds (Calm env s) (handle_event env add_ms now o s e req)
  unfolding handle_event enqueue
  handle_event-Calm o s e req =
      Holds-if (Calm env s) (is_some req.register) _ _
        (of_result _ (handle_register-Calm o s e req))
        (Holds-elim (Calm env s) (get_session s.manager (sid_of req)) _ _ (of_result _ (λ k. refl))
          (λ x.
            Holds-chain (Calm env s) (Calm env s) _ _
              (Holds-if (Calm env s) (not req.ping && not req.unregister) _ _
                (Holds-chain (λ (m : Manager). Calm env s (record s { manager = m })) (Calm env s)
                  (or_aborts (touch add_ms now (sid_of req) s.manager)) _
                  (touch-Calm s (sid_of req)) (λ m c. of_result _ c))
                (of_result s (λ k. refl)))
              (λ t c. Holds-if (Calm env s) (need_broadcast req) _ _ (of_result _ c) (
                Holds-chain (CalmIn t) (Calm env s) (handle_local env add_ms now t e req) _
                  (handle_local-Calm t e req)
                  (λ r j. of_result _ (
                    both_ways (Calm env s) (is_ok r.1) _ _ (Calm-trans env s t r.0 c j)
                      (Calm-trans env s t r.0 c j)))))))
