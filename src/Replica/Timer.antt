-- ===== src/Replica/Timer.antt =====
-- The timer, the changes of the raft state and the events of a follower leave the replica as it is.
use pyxis.Prelude.{
  ℕ, zero, suc, Bytes, List, [], ◌∷◌, some, ◌≡◌, refl, ◌∙◌, Option-cases, inl, inr, true,
}
use pyxis.Maps.Keys.{nat_key}
use pyxis.Db.{Env}
use pyxis.Sessions.{ping_back}
use pyxis.Sessions.Manager.{
  get_session, get_sessions, step, reset_timer, reset_watchers, reset_pending_ping,
}
use pyxis.Server.{Server, Options, deliver}
use pyxis.Messages.{no_request, Request}
use pyxis.Server.Calls.{put_session}
use pyxis.Server.Events.{
  handle_event, close_all, on_timer, on_state, enter_leader, follower_event, nth_address,
  ping_back_all, all_again,
}
use pyxis.Server.Holds.{Holds, of_result, of_none, Holds-chain, Holds-elim, weakened}
use pyxis.Replica.{replica_of}
use pyxis.Replica.Calm.{Calm, Calm-trans, deliver-Calm, put_session-Calm, ping_back-owner}
use pyxis.Replica.Quiet.{step-owner, reset_timer-owner, reset_watchers-owner, ping_all-owner}
use pyxis.Replica.Events.{managed, handle_event-Calm}

module _ (env : Env) (add_ms : ℕ → ℕ → ℕ) (now : ℕ) where
  close_all-Calm :
      (o : Options) (sids : List ℕ) (s : Server env) (e : ℕ)
      → Holds (Calm env s) (close_all env add_ms now o s e sids)
  unfolding close_all
  close_all-Calm o [] s e = of_result s (λ k. refl)
  close_all-Calm o (sid ∷ sids) s e =
      let req : Request = record no_request { sid = some sid; unregister = true } in
      Holds-chain (Calm env s) (Calm env s) (handle_event env add_ms now o s e req) _
        (handle_event-Calm env add_ms now o s e req)
        (λ t c.
          weakened (Calm env t) (Calm env s) _ (λ u j. Calm-trans env s t u c j)
            (close_all-Calm o sids t (suc e)))

  ping_back_all-Calm :
      (sids : List ℕ) (s : Server env) → Calm env s (ping_back_all env add_ms now s sids)
  unfolding ping_back_all
  ping_back_all-Calm [] s = λ k. refl
  ping_back_all-Calm (sid ∷ sids) s = elim (Option-cases (get_session s.manager sid)) [
    | inl h ↦ rw (h, ping_back_all) (ping_back_all-Calm sids s)
    | inr (x, h) ↦
        let (pinged, answers) = ping_back now x in
        let t : Server env = deliver env (put_session env now s pinged) answers in
        rw (h, ping_back_all)
          (Calm-trans env s t (ping_back_all env add_ms now t sids)
            (deliver-Calm env now s (put_session env now s pinged) answers
              (put_session-Calm env now s sid x pinged h (ping_back-owner env now x)))
            (ping_back_all-Calm sids t))
  ]

  -- Step and the requests of the sessions that it closed.
  pub stepped-Calm :
      (o : Options) (s : Server env) (e : ℕ)
      → (let r = step add_ms now now s.manager in
          Holds (Calm env s) (close_all env add_ms now o (record s { manager = r.0 }) e r.1))
  stepped-Calm o s e =
      let r = step add_ms now now s.manager in
      let t : Server env = record s { manager = r.0 } in
      weakened (Calm env t) (Calm env s) _
        (λ u j.
          Calm-trans env s t u
            (managed env add_ms now s r.0 (λ k. step-owner add_ms k now now s.manager)) j)
        (close_all-Calm o r.1 t e)

  pub on_timer-Calm :
      (o : Options) (s : Server env) (e : ℕ)
      → Holds (λ (r : Server env × ℕ). Calm env s r.0) (on_timer env add_ms now o s e)
  unfolding on_timer
  on_timer-Calm o s e =
      let P : Server env × ℕ → Type 0 = λ r. Calm env s r.0 in
      Holds-chain (Calm env s) P _ _ (stepped-Calm o s e) (λ t c.
        Holds-elim P (get_sessions t.manager (step add_ms now now s.manager).2) _ _ (of_result _ c)
          (λ set.
            of_result _ (
              Calm-trans env s t (ping_back_all env add_ms now t set) c
                (ping_back_all-Calm set t))))

  all_again-same :
      (es : List ℕ) (s : Server env)
      → replica_of env (all_again env add_ms now s es) ≡ replica_of env s
  unfolding all_again
  all_again-same [] s = refl
  all_again-same (e ∷ es) s = all_again-same es _

  pub on_state-Calm : (s : Server env) → Calm env s (on_state env add_ms now s)
  unfolding on_state reset_pending_ping
  on_state-Calm s =
      let t : Server env = record (all_again env add_ms now s s.requests) { requests = [] } in
      let (m, answers) = reset_pending_ping now t.manager in
      deliver-Calm env now s (record t { manager = m }) answers
        (Calm-trans env s t (record t { manager = m }) (λ k. all_again-same s.requests s)
          (managed env add_ms now t m (λ k. ping_all-owner k now t.manager.sessions)))

  pub enter_leader-Calm :
      (times : ℕ → ℕ) (begin : List ℕ → ℕ) (s : Server env)
      → Holds (Calm env s) (enter_leader env add_ms now times begin s)
  unfolding enter_leader
  enter_leader-Calm times begin s = elim (Option-cases (reset_timer add_ms times begin s.manager)) [
    | inl h ↦ rw (h, enter_leader) of_none
    | inr (m, h) ↦
        rw (h, enter_leader)
          (of_result _ (λ k.
            managed env add_ms now s (reset_watchers m)
              (λ i.
                reset_watchers-owner i m.sessions
                ∙ reset_timer-owner add_ms i times begin s.manager m h)
              k))
  ]

  pub follower_event-Calm :
      (id : ℕ) (addresses : List Bytes) (s : Server env) (e : ℕ)
      → Holds (Calm env s) (follower_event env add_ms now id addresses s e)
  unfolding follower_event
  follower_event-Calm zero addresses s e = of_result _ (λ k. refl)
  follower_event-Calm (suc n) addresses s e =
      Holds-elim (Calm env s) (nth_address env add_ms now n addresses) _ _ of_none
        (λ a. of_result _ (λ k. refl))
