-- ===== src/Server/Watching.antt =====
-- Watches and registrations that the server takes.
use pyxis.Prelude.{
  ℕ, ◌≤◌, ◌<◌, ◌^◌, true, false, some, ◌≡◌, refl, ap, arith, if◌then◌else◌, inl, inr, Bool-cases,
  beq_refl, ==_iff, ◌∙◌,
}
use pyxis.Maps.{find, find-assign}
use pyxis.Maps.Keys.{nat_key, bytes_key}
use pyxis.Common.Status
use pyxis.Common.Status.{Status}
use pyxis.Db.{Env}
use pyxis.Watch
use pyxis.Watch.{Watcher}
use pyxis.Sessions.{Session, has_watch, bind_watch}
use pyxis.Sessions.Manager.{get_session}
use pyxis.Server.{Server, Options}
use pyxis.Messages.{Request, sid_of, watch_of}
use pyxis.Server.Calls.{put_session}
use pyxis.Server.Commands.{on_watch}
use pyxis.Server.Events.{clamp}

-- With ordered bounds below 2^31, the timeout of a session lies between the bounds, and a requested
-- timeout that does is taken as it is.
clamp_lem :
    (o : Options) (word : ℕ)
    → o.min_session_timeout ≤ o.max_session_timeout
    → o.max_session_timeout < 2 ^ 31
    → (o.min_session_timeout ≤ clamp o word)
      × (clamp o word ≤ o.max_session_timeout)
      × (o.min_session_timeout ≤ word → word ≤ o.max_session_timeout → clamp o word ≡ word)
unfolding clamp
clamp_lem o word h w = (ground arith, ground arith, λ a b. ground arith)

module _ (env : Env) (add_ms : ℕ → ℕ → ℕ) (now : ℕ) (s : Server env) (req : Request) where
  already :
      (x : Session)
      → get_session s.manager (sid_of req) ≡ some x
      → has_watch x (watch_of req).path ≡ true
      → on_watch env add_ms now s req ≡ (s, Status.ok)
  unfolding on_watch
  already x h b = rw (h, b, on_watch) refl

  abbrev wanted : Session → Watcher
  wanted x = record {
    path = (watch_of req).path;
    sid = x.sid;
    mask = (watch_of req).watch;
    recursive = (watch_of req).recursive;
  }

  abbrev watching : Session → Server env
  watching x =
      put_session env now
        (record s { watchers = Watch.add s.watchers (watch_of req).path (wanted x) })
        (bind_watch x (wanted x))

  newly :
      (x : Session)
      → get_session s.manager (sid_of req) ≡ some x
      → has_watch x (watch_of req).path ≡ false
      → on_watch env add_ms now s req ≡ (watching x, Status.ok)
  unfolding on_watch
  newly x h b = rw (h, b, on_watch) refl

module _ (env : Env) (add_ms : ℕ → ℕ → ℕ) (now : ℕ) (s : Server env) (req : Request) where
  watching-found :
      (x : Session)
      → x.sid ≡ sid_of req
      → get_session (watching env add_ms now s req x).manager (sid_of req)
        ≡ some (bind_watch x (wanted env add_ms now s req x))
  unfolding bind_watch
  watching-found x i =
      find-assign x.sid (sid_of req) (bind_watch x (wanted env add_ms now s req x))
        s.manager.sessions
      ∙ ap
          (λ b.
            if b
            then some (bind_watch x (wanted env add_ms now s req x))
            else find (sid_of req) s.manager.sessions)
          ((==_iff x.sid (sid_of req)).1 i)

  bind_watch-has_watch : (x : Session) (w : Watcher) → has_watch (bind_watch x w) w.path ≡ true
  unfolding bind_watch
  bind_watch-has_watch x w = ground (arith, find-assign w.path w.path w x.watches, beq_refl w.path)

  -- Where a session is known by its own id, OnWatch succeeds, and asking again for a watch of that
  -- session at the same path, whatever the mask, succeeds and changes nothing.
  pub on_watch-again :
      (x : Session) (again : Request)
      → get_session s.manager (sid_of req) ≡ some x
      → x.sid ≡ sid_of req
      → sid_of again ≡ sid_of req
      → (watch_of again).path ≡ (watch_of req).path
      → (t : Server env) × (on_watch env add_ms now s req ≡ (t, Status.ok))
        × (on_watch env add_ms now t again ≡ (t, Status.ok))
  on_watch-again x again h i j k = elim (Bool-cases (has_watch x (watch_of req).path)) [
    | inl b ↦
        (s, already env add_ms now s req x h b, already env add_ms now s again x (rw j h) (rw k b))
    | inr b ↦ (
      watching env add_ms now s req x,
      newly env add_ms now s req x h b,
      already env add_ms now (watching env add_ms now s req x) again
          (bind_watch x (wanted env add_ms now s req x)) (rw j (watching-found x i))
          (rw k (bind_watch-has_watch x (wanted env add_ms now s req x))),
    )
  ]
