-- ===== src/Server/Asked.antt =====
-- What an event does to the queue of requests and the broadcasts.
use pyxis.Prelude.{
  ℕ, Bytes, not, ◌&&◌, List, [], ◌∷◌, ◌++◌, ◌≡◌, refl, ap, ◌∙◌, ◌⊎◌, Bool-cases, Option-cases, inl,
  inr,
}
use pyxis.Maps.Keys.{nat_key}
use pyxis.Common.Status.{Status, is_ok, is_not_found}
use pyxis.Db.{Env}
use pyxis.Store
use pyxis.Node
use pyxis.Store.{Run, returns, aborts, get}
use pyxis.Sessions.{Session, ping_back, hold_ping, has_pending_watcher}
use pyxis.Sessions.Manager.{get_session, touch}
use pyxis.Server.{Server, State, Options}
use pyxis.Messages.{Request, sid_of, is_some}
use pyxis.Server.Calls.{put_session}
use pyxis.Server.Commands.{or_aborts}
use pyxis.Server.Events.{
  handle_event, handle_register, handle_local, handle_ping, handle_read, handle_stat,
  hold_and_answer, enqueue, need_broadcast,
}
use pyxis.Server.Holds.{
  both_ways, either_way, Holds, of_result, of_none, Holds-chain, Holds-after, Holds-if, Holds-elim,
}
use pyxis.Server.Kept.{core, Keeps, KeepsIn, deliver-Keeps}
use pyxis.Server.KeptCommands.{on_watch-Keeps}

module _ (env : Env) (add_ms : ℕ → ℕ → ℕ) (now : ℕ) where
  -- Behind an event the queue and the broadcasts are as they were, or have one more each.
  abbrev pub Asked : Server env → ℕ → Server env → Type 0
  Asked s e t =
      (core env now t ≡ core env now s)
      ⊎ ((cmd : Request) × (core env now t ≡ (s.requests ++ e ∷ [], cmd ∷ s.broadcast, s.state)))

  hold_and_answer-Keeps :
      (s : Server env) (e : ℕ) (x : Session)
      → Keeps env now s (hold_and_answer env add_ms now s e x)
  unfolding hold_and_answer
  hold_and_answer-Keeps s e x =
      let held : Session = (hold_ping x e).0 in
      elim (Bool-cases (has_pending_watcher held)) [
        | inl h ↦
            rw (h, hold_and_answer)
              (deliver-Keeps env now (ping_back now held).1
                (put_session env now s (ping_back now held).0))
        | inr h ↦ rw (h, hold_and_answer) refl
      ]

  handle_ping-Keeps :
      (s : Server env) (e sid : ℕ) → Holds (KeepsIn env now s) (handle_ping env add_ms now s e sid)
  unfolding handle_ping
  handle_ping-Keeps s e sid =
      Holds-elim (KeepsIn env now s) (get_session s.manager sid) _ _ (of_result _ refl) (λ y.
        Holds-after (KeepsIn env now s) (or_aborts (touch add_ms now sid s.manager)) _ (λ m.
          Holds-elim (KeepsIn env now s) (get_session m sid) _ _ of_none
            (λ x. of_result _ (hold_and_answer-Keeps (record s { manager = m }) e x))))

  handle_read-Keeps :
      (s : Server env) (e : ℕ) (req : Request) (path : Bytes)
      → KeepsIn env now s (handle_read env add_ms now s e req path)
  unfolding handle_read
  handle_read-Keeps s e req path =
      either_way (KeepsIn env now s) (get_session s.manager (sid_of req)) _ _ refl (λ x.
        both_ways (KeepsIn env now s) (not (is_ok (Store.read env s.store path).0)) _ _ refl (
          both_ways (KeepsIn env now s) (is_some req.watch) _ _
            (on_watch-Keeps env now add_ms _ req) refl))

  handle_stat-Keeps :
      (s : Server env) (e : ℕ) (req : Request) (path : Bytes)
      → KeepsIn env now s (handle_stat env add_ms now s e req path)
  unfolding handle_stat
  handle_stat-Keeps s e req path =
      let st : Status = (get env s.store path Node.empty).0 in
      either_way (KeepsIn env now s) (get_session s.manager (sid_of req)) _ _ refl (λ x.
        both_ways (KeepsIn env now s) (is_ok st) _ _
          (both_ways (KeepsIn env now s) (is_some req.watch) _ _
            (on_watch-Keeps env now add_ms _ req) refl)
          (both_ways (KeepsIn env now s) (is_not_found st && is_some req.watch) _ _
            (on_watch-Keeps env now add_ms s req) refl))

  handle_local-Keeps :
      (s : Server env) (e : ℕ) (req : Request)
      → Holds (KeepsIn env now s) (handle_local env add_ms now s e req)
  unfolding handle_local
  handle_local-Keeps s e req =
      Holds-if (KeepsIn env now s) req.ping _ _ (handle_ping-Keeps s e (sid_of req)) (
        Holds-elim (KeepsIn env now s) req.read _ _
          (Holds-elim (KeepsIn env now s) req.stat _ _
            (Holds-if (KeepsIn env now s) (is_some req.watch) _ _
              (of_result _ (on_watch-Keeps env now add_ms s req)) (of_result _ refl))
            (λ path. of_result _ (handle_stat-Keeps s e req path)))
          (λ path. of_result _ (handle_read-Keeps s e req path)))

  handle_register-Asked :
      (o : Options) (s : Server env) (e : ℕ) (req : Request)
      → Asked s e (handle_register env add_ms now o s e req)
  unfolding handle_register enqueue
  handle_register-Asked o s e req = elim (Option-cases req.sid) [
    | inl h ↦ rw (h, handle_register) (inr (_, refl))
    | inr (sid, h) ↦ elim (Option-cases (get_session s.manager sid)) [
      | inl k ↦ rw (h, k, handle_register) (inl refl)
      | inr (x, k) ↦ rw (h, k, handle_register) (inl refl)
    ]
  ]

  pub handle_event-Asked :
      (o : Options) (s : Server env) (e : ℕ) (req : Request)
      → Holds (Asked s e) (handle_event env add_ms now o s e req)
  unfolding handle_event enqueue
  handle_event-Asked o s e req =
      Holds-if (Asked s e) (is_some req.register) _ _
        (of_result _ (handle_register-Asked o s e req))
        (Holds-elim (Asked s e) (get_session s.manager (sid_of req)) _ _ (of_result _ (inl refl))
          (λ x.
            Holds-chain (Keeps env now s) (Asked s e) _ _
              (Holds-if (Keeps env now s) (not req.ping && not req.unregister) _ _
                (Holds-after (Keeps env now s) (or_aborts (touch add_ms now (sid_of req) s.manager))
                  _ (λ m. of_result _ refl))
                (of_result _ refl))
              (λ t k.
                Holds-if (Asked s e) (need_broadcast req) _ _
                  (of_result _ (
                    inr (
                      req,
                      ap (λ (c : List ℕ × List Request × State). (c.0 ++ e ∷ [], req ∷ c.1, c.2)) k,
                    )))
                  (Holds-chain (KeepsIn env now t) (Asked s e) (handle_local env add_ms now t e req)
                    _ (handle_local-Keeps t e req)
                    (λ r j.
                      of_result _
                        (both_ways (Asked s e) (is_ok r.1) _ _ (inl (j ∙ k)) (inl (j ∙ k))))))))
