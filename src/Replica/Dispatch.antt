-- ===== src/Replica/Dispatch.antt =====
-- The dispatch of onCommand, seen on the replica.
use pyxis.Prelude.{
  ℕ, Bytes, true, List, [], ◌∷◌, Option, none, some, ◌≡◌, ◌≢◌, refl, sym, ap, ◌∙◌, arith,
  Bool-cases, Option-cases, inl, inr, if◌then◌else◌, ◌≢◌,
}
use pyxis.Maps.{find}
use pyxis.Maps.Keys.{nat_key}
use pyxis.Common.Status.{Status, is_ok, is_not_found}
use pyxis.Db.{Env}
use pyxis.Db.Laws.{IsEnv}
use pyxis.Node
use pyxis.Store.{Run, returns, aborts, get}
use pyxis.Store
use pyxis.Watch.{Watcher}
use pyxis.Sessions.{bind_watch, has_watch}
use pyxis.Server.{Server, chain, is_leader}
use pyxis.Messages.{Request, Response, sid_of, is_some, watch_of, no_response}
use pyxis.Server.Commands.{on_watch, on_read, on_stat, run_command, on_command, answer, on_register}
use pyxis.Replica
use pyxis.Replica.{owner, Replica, replica_of, IsKeyed, watch_status}
use pyxis.Replica.Calm.{Calm, put_session-Calm}
use pyxis.Replica.Mirror.{seen, seen-check, seen-if, both, both_of}
use pyxis.Replica.Commands.{register-seen, unregister-seen, create-seen, delete-seen, write-seen}
use pyxis.Server.Holds.{both_ways, Run-cases}

pub seen-elim :
    {X A B : Type 0} (f : A → B) (o : Option X) (r : Run A) (k : X → Run A) (q : Run B)
    (j : X → Run B)
    → seen f r ≡ q
    → ((x : X) → seen f (k x) ≡ j x)
    → seen f (elim o [ none ↦ r | some x ↦ k x ]) ≡ (elim o [ none ↦ q | some x ↦ j x ])
seen-elim f none r k q j h g = h
seen-elim f (some x) r k q j h g = g x

queue-cases : (es : List ℕ) → es ≢ [] → (e : ℕ) × (rest : List ℕ) × (es ≡ e ∷ rest)
queue-cases [] h = absurd (h refl)
queue-cases (e ∷ es) h = (e, es, refl)

module _ (env : Env) (add_ms : ℕ → ℕ → ℕ) (now : ℕ) where
  -- onWatch changes no owner, and answers by whether there is the session.
  pub on_watch-Calm :
      (s : Server env) (req : Request) → Calm env s (on_watch env add_ms now s req).0
  unfolding on_watch bind_watch
  on_watch-Calm s req = elim (Option-cases (find (sid_of req) s.manager.sessions)) [
    | inl h ↦ rw (h, on_watch) (λ k. refl)
    | inr (x, h) ↦
        let wreq = watch_of req in
        let w : Watcher = record {
          path = wreq.path;
          sid = x.sid;
          mask = wreq.watch;
          recursive = wreq.recursive;
        } in
        rw (h, on_watch)
          (both_ways (λ (p : Server env × Status). Calm env s p.0) (has_watch x wreq.path) _ _
            (λ k. refl) (put_session-Calm env now s (sid_of req) x (bind_watch x w) h refl))
  ]

  on_watch-status :
      (s : Server env) (req : Request)
      → (on_watch env add_ms now s req).1 ≡ watch_status env (replica_of env s) (sid_of req)
  unfolding on_watch
  on_watch-status s req = ground arith

  on_watch-seen :
      (s : Server env) (req : Request)
      → IsKeyed env (replica_of env s)
      → both env (on_watch env add_ms now s req)
        ≡ (replica_of env s, watch_status env (replica_of env s) (sid_of req))
  on_watch-seen s req keyed = λ i. (on_watch-Calm s req keyed i, on_watch-status s req i)

  read-seen :
      (s : Server env) (req : Request) (path : Bytes)
      → IsKeyed env (replica_of env s)
      → seen (both_of env) (on_read env add_ms now s req path)
        ≡ Replica.read env (replica_of env s) req path
  unfolding on_read Replica.read
  read-seen s req path keyed =
      let (st, content) = Store.read env s.store path in
      seen-check (both_of env) (is_some req.watch) _ _ (elim (Bool-cases (is_ok st)) [
        | inr b ↦ rw b refl
        | inl b ↦ rw b (ap returns (on_watch-seen s req keyed))
      ])

  stat-seen :
      (s : Server env) (req : Request) (path : Bytes)
      → IsKeyed env (replica_of env s)
      → seen (both_of env) (on_stat env add_ms now s req path)
        ≡ Replica.stat env (replica_of env s) req path
  unfolding on_stat Replica.stat
  stat-seen s req path keyed =
      let (st, node) = get env s.store path Node.empty in
      let w = on_watch-seen s req keyed in
      seen-check (both_of env) (is_some req.watch) _ _ (elim (Bool-cases (is_ok st)) [
        | inl b ↦ rw b (ap returns w)
        | inr b ↦ elim (Bool-cases (is_not_found st)) [
          | inr c ↦ rw (b, c) refl
          | inl c ↦
              rw (b, c)
                (ap (λ (p : Replica env × Status). returns (p.0, (if is_ok p.1 then st else p.1)))
                  w)
        ]
      ])

module _ (env : Env) (l : IsEnv env) (add_ms : ℕ → ℕ → ℕ) (now : ℕ) where
  plain-seen :
      (s : Server env) (r : Run (Server env × Status)) (q : Run (Replica env × Status))
      → seen (both env) r ≡ q
      → seen (both_of env) (chain r (λ x. returns (x.0, x.1, no_response))) ≡ q
  plain-seen s (returns r) q h = h
  plain-seen s aborts q h = h

  filled-seen :
      (s : Server env) (r : Run (Server env × Status × Bytes)) (q : Run (Replica env × Status))
      → seen (both_of env) r ≡ q
      → seen
          (both_of env)
          (chain r (λ x. returns (x.0, x.1, record no_response { content = some x.2 })))
        ≡ q
  filled-seen s (returns r) q h = h
  filled-seen s aborts q h = h

  registered :
      (s : Server env) (req : Request)
      → seen (both_of env) (
          chain
            (on_register env add_ms now s req)
            (λ x. returns (x.0, x.1, record no_response { sid = some x.2 })))
        ≡ Replica.register env
            (replica_of env s)
            (sid_of req)
            (elim req.register [ none ↦ 0 | some t ↦ t ])
  registered s req = elim (Run-cases (on_register env add_ms now s req)) [
    | inl e ↦ rw e (sym (ap (seen (both_of env)) e) ∙ register-seen env l add_ms now s req)
    | inr (r, e) ↦ rw e (sym (ap (seen (both_of env)) e) ∙ register-seen env l add_ms now s req)
  ]

  -- The dispatch of onCommand.
  pub run_command-seen :
      (s : Server env) (req : Request)
      → IsKeyed env (replica_of env s)
      → seen (both_of env) (run_command env add_ms now s req)
        ≡ Replica.command env (replica_of env s) req
  unfolding run_command Replica.command
  run_command-seen s req keyed =
      let f = both_of env in
      seen-if f (is_some req.register) _ _ _ _ (λ _. registered s req)
        (λ _.
          seen-if f req.unregister _ _ _ _
            (λ _. plain-seen s _ _ (unregister-seen env l add_ms now s req keyed))
            (λ _.
              seen-elim f req.create _ _ _ _
                (seen-elim f req.delete _ _ _ _
                  (seen-elim f req.read _ _ _ _
                    (seen-elim f req.write _ _ _ _
                      (seen-elim f req.stat _ _ _ _
                        (seen-if f (is_some req.watch) _ _ _ _
                          (λ _. ap returns (on_watch-seen env add_ms now s req keyed)) (λ _. refl))
                        (λ path. filled-seen s _ _ (stat-seen env add_ms now s req path keyed)))
                      (λ w. plain-seen s _ _ (write-seen env l add_ms now s w keyed)))
                    (λ path. filled-seen s _ _ (read-seen env add_ms now s req path keyed)))
                  (λ path.
                    plain-seen s _ _ (delete-seen env l add_ms now s (sid_of req) path keyed)))
                (λ c. plain-seen s _ _ (create-seen env l add_ms now s (sid_of req) c keyed))))

  answer-seen :
      (o : Option ℕ) (r : Run (Server env × Status × Response)) (q : Run (Replica env × Status))
      → seen (both_of env) r ≡ q
      → seen (replica_of env) (chain r (λ x. returns (answer env add_ms now o x)))
        ≡ seen (λ p. p.0) q
  unfolding answer
  answer-seen none (returns r) q h = ap (seen (λ p. p.0)) h
  answer-seen (some e) (returns r) q h = ap (seen (λ p. p.0)) h
  answer-seen o aborts q h = ap (seen (λ p. p.0)) h

  -- onCommand does to the replica what the replica decides, on a leader with a pending request and
  -- elsewhere.
  pub on_command-seen :
      (s : Server env) (req : Request)
      → IsKeyed env (replica_of env s)
      → (is_leader s.state ≡ true → s.requests ≢ [])
      → seen (replica_of env) (on_command env add_ms now s req)
        ≡ seen (λ p. p.0) (Replica.command env (replica_of env s) req)
  unfolding on_command
  on_command-seen s req keyed h = elim (Bool-cases (is_leader s.state)) [
    | inr b ↦
        rw (b, on_command)
          (answer-seen none (run_command env add_ms now s req) _ (run_command-seen s req keyed))
    | inl b ↦
        let (e, es, q) = queue-cases s.requests (h b) in
        let taken : Server env = record s { requests = es } in
        rw (b, q, on_command)
          (answer-seen (some e) (run_command env add_ms now taken req) _
            (run_command-seen taken req keyed))
  ]
