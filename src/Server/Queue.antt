-- ===== src/Server/Queue.antt =====
-- The queue of a leader: raft delivers its broadcasts in order, and each command answers the event that
-- asked for it.
use pyxis.Prelude.{
  ℕ, true, List, [], ◌∷◌, ◌++◌, Option, none, some, ◌≡◌, refl, sym, ap, ◌∙◌, arith, inl, inr,
  if◌then◌else◌, ◌≢◌, length, ◌⊎◌,
}
use pyxis.Maps.{find, assign, find-assign}
use pyxis.Maps.Keys.{nat_key}
use pyxis.Common.Status.{Status, is_ok, to_rpc_error}
use pyxis.Db.{Env}
use pyxis.Store.{Run, returns, aborts}
use pyxis.Server.{Server, State, Options, chain, is_leader, response_of}
use pyxis.Messages.{Request, Response, no_response}
use pyxis.Server.Commands.{run_command, on_command, answer}
use pyxis.Server.Events.{handle_event}
use pyxis.Server.Holds.{held_by, Run-cases}
use pyxis.Server.Kept.{core, Keeps}
use pyxis.Server.KeptCommands.{run_command-Keeps, KeepsWith}
use pyxis.Server.Asked.{Asked, handle_event-Asked}

-- A leader, and the commands that it broadcast and that raft has not delivered, the oldest first, each
-- with the event that asked for it.
pub record Lead (env : Env) : Type 0 where
  pub server : Server env
  pub log : List (ℕ × Request)

abbrev pub events_of : List (ℕ × Request) → List ℕ
events_of [] = []
events_of ((e, cmd) ∷ log) = e ∷ events_of log

events_of-append :
    (log : List (ℕ × Request)) (e : ℕ) (cmd : Request)
    → events_of (log ++ (e, cmd) ∷ []) ≡ events_of log ++ e ∷ []
events_of-append [] e cmd = refl
events_of-append ((f, c) ∷ log) e cmd = ap (λ (es : List ℕ). f ∷ es) (events_of-append log e cmd)

longer : (c : Request) (cs : List Request) → c ∷ cs ≢ cs
longer c cs h = absurd (ground (arith, ap (λ (x : List Request). length x) h))

chained :
    {A B : Type 0} (r : Run A) (f : A → B) (b : B)
    → chain r (λ a. returns (f a)) ≡ returns b
    → (a : A) × (r ≡ returns a) × (b ≡ f a)
chained (returns a) f b h = (a, refl, ground arith)
chained aborts f b h = absurd (ground arith)

module _ (env : Env) (add_ms : ℕ → ℕ → ℕ) (o : Options) where
  -- What happens to a leader at some time: an event that broadcasts nothing, one that broadcasts a
  -- command, the oldest command that raft delivers, and any change elsewhere, such as Step and
  -- pingBack of the timer.
  pub data Step (s : Server env) : List (ℕ × Request) → Lead env → Type 0 where
    asks :
        (now e : ℕ) (req : Request) (log : List (ℕ × Request)) (t : Server env)
        → handle_event env add_ms now o s e req ≡ returns t
        → t.broadcast ≡ s.broadcast
        → Step s log (record { server = t; log = log })
    queues :
        (now e : ℕ) (req cmd : Request) (log : List (ℕ × Request)) (t : Server env)
        → handle_event env add_ms now o s e req ≡ returns t
        → t.broadcast ≡ cmd ∷ s.broadcast
        → Step s log (record { server = t; log = log ++ (e, cmd) ∷ [] })
    delivers :
        (now e : ℕ) (cmd : Request) (log : List (ℕ × Request)) (t : Server env)
        → on_command env add_ms now s cmd ≡ returns t
        → Step s ((e, cmd) ∷ log) (record { server = t; log = log })
    elsewhere :
        (now : ℕ) (log : List (ℕ × Request)) (t : Server env)
        → Keeps env now s t
        → Step s log (record { server = t; log = log })

  pub data Reach : Lead env → Type 0 where
    elected :
        (s : Server env)
        → is_leader s.state ≡ true
        → s.requests ≡ []
        → Reach (record { server = s; log = [] })
    next : (l m : Lead env) → Reach l → Step l.server l.log m → Reach m

  -- The queue has the events of the log.
  pub record IsQueue (l : Lead env) : Type 0 where
    pub leads : is_leader l.server.state ≡ true
    pub queue : l.server.requests ≡ events_of l.log

  on_command-shape :
      (now e : ℕ) (cmd : Request) (es : List ℕ) (s : Server env)
      → is_leader s.state ≡ true
      → s.requests ≡ e ∷ es
      → on_command env add_ms now s cmd
        ≡ chain
            (run_command env add_ms now (record s { requests = es }) cmd)
            (λ u. returns (answer env add_ms now (some e) u))
  unfolding on_command
  on_command-shape now e cmd es s h q = rw (h, q, on_command) refl

  on_command-taken :
      (now e : ℕ) (cmd : Request) (es : List ℕ) (s t : Server env)
      → is_leader s.state ≡ true
      → s.requests ≡ e ∷ es
      → on_command env add_ms now s cmd ≡ returns t
      → (u : Server env × Status × Response) × (run_command env add_ms now
            (record s { requests = es })
            cmd
          ≡ returns u)
        × (t ≡ answer env add_ms now (some e) u)
  on_command-taken now e cmd es s t h q d =
      chained (run_command env add_ms now (record s { requests = es }) cmd)
        (answer env add_ms now (some e)) t (sym (on_command-shape now e cmd es s h q) ∙ d)

  answered :
      (now e : ℕ) (u : Server env × Status × Response)
      → response_of env (answer env add_ms now (some e) u) e
        ≡ (if is_ok u.1 then u.2 else record u.2 { err = some (to_rpc_error u.1) })
  unfolding answer
  answered now e (s, st, rep) =
      let reply : Response =
        if is_ok st then rep else record rep { err = some (to_rpc_error st) } in
      let there : find e (assign e reply s.responses) ≡ some reply =
        ground (arith, find-assign e e reply s.responses) in
      ap (λ (o : Option Response). elim o [ none ↦ no_response | some r ↦ r ]) there

  -- Behind a delivered command the queue is what was behind its event.
  taken_core :
      (now e : ℕ) (cmd : Request) (es : List ℕ) (s t : Server env)
      → is_leader s.state ≡ true
      → s.requests ≡ e ∷ es
      → on_command env add_ms now s cmd ≡ returns t
      → core env now t ≡ (es, s.broadcast, s.state)
  unfolding answer
  taken_core now e cmd es s t h q d =
      let (u, ran, got) = on_command-taken now e cmd es s t h q d in
      ap (core env now) got
      ∙ held_by (KeepsWith env now add_ms (record s { requests = es })) _ u
          (run_command-Keeps env now add_ms (record s { requests = es }) cmd) ran

  Step-IsQueue :
      (s : Server env) (log : List (ℕ × Request)) (m : Lead env)
      → Step s log m
      → IsQueue (record { server = s; log = log })
      → IsQueue m
  Step-IsQueue s _ _ (asks now e req log t d b) v =
      elim (held_by (Asked env add_ms now s e) _ t (handle_event-Asked env add_ms now o s e req)
        d) [
          | inl k ↦ record {
            leads = ap (λ (c : List ℕ × List Request × State). is_leader c.2) k ∙ v.leads;
            queue = ap (λ (c : List ℕ × List Request × State). c.0) k ∙ v.queue;
          }
          | inr (cmd, k) ↦
              let grown : t.broadcast ≡ cmd ∷ s.broadcast =
                ap (λ (c : List ℕ × List Request × State). c.1) k in
              absurd (longer cmd s.broadcast (sym grown ∙ b))
        ]
  Step-IsQueue s _ _ (queues now e req cmd log t d b) v =
      elim (held_by (Asked env add_ms now s e) _ t (handle_event-Asked env add_ms now o s e req)
        d) [
          | inl k ↦
              let same : t.broadcast ≡ s.broadcast =
                ap (λ (c : List ℕ × List Request × State). c.1) k in
              absurd (longer cmd s.broadcast (sym b ∙ same))
          | inr (c, k) ↦ record {
            leads = ap (λ (c : List ℕ × List Request × State). is_leader c.2) k ∙ v.leads;
            queue =
                ap (λ (c : List ℕ × List Request × State). c.0) k
                ∙ ap (λ (es : List ℕ). es ++ e ∷ []) v.queue
                ∙ sym (events_of-append log e cmd);
          }
        ]
  Step-IsQueue s _ _ (delivers now e cmd log t d) v =
      let k = taken_core now e cmd (events_of log) s t v.leads v.queue d in
      record {
        leads = ap (λ (c : List ℕ × List Request × State). is_leader c.2) k ∙ v.leads;
        queue = ap (λ (c : List ℕ × List Request × State). c.0) k;
      }
  Step-IsQueue s _ _ (elsewhere now log t k) v = record {
    leads = ap (λ (c : List ℕ × List Request × State). is_leader c.2) k ∙ v.leads;
    queue = ap (λ (c : List ℕ × List Request × State). c.0) k ∙ v.queue;
  }

  pub Reach-IsQueue : (l : Lead env) → Reach l → IsQueue l
  Reach-IsQueue _ (elected s h q) = record { leads = h; queue = q }
  Reach-IsQueue _ (next l m r st) = Step-IsQueue l.server l.log m st (Reach-IsQueue l r)

  -- In every state of a leader over any order of events and of deliveries in the order of the
  -- broadcasts, the oldest command that was not delivered finds its event at the head of the queue.
  -- Its delivery aborts only where a CHECK of the command's own handler fails; otherwise that event has
  -- the response of this command, with the error of its status if there is one, and the queue has the
  -- events of the commands behind it.
  pub on_command-answers :
      (l : Lead env) (now e : ℕ) (cmd : Request) (log : List (ℕ × Request))
      → Reach l
      → l.log ≡ (e, cmd) ∷ log
      → (l.server.requests ≡ e ∷ events_of log)
        × (((run_command env add_ms now (record (l.server) { requests = events_of log }) cmd
                ≡ aborts)
              × (on_command env add_ms now l.server cmd ≡ aborts))
            ⊎ ((u : Server env × Status × Response) × (t : Server env) × (run_command env add_ms now
                    (record (l.server) { requests = events_of log })
                    cmd
                  ≡ returns u)
                × (on_command env add_ms now l.server cmd ≡ returns t)
                × (response_of env t e
                    ≡ (if is_ok u.1 then u.2 else record u.2 { err = some (to_rpc_error u.1) }))
                × (t.requests ≡ events_of log)))
  on_command-answers l now e cmd log r g =
      let v = Reach-IsQueue l r in
      let q : l.server.requests ≡ e ∷ events_of log = v.queue ∙ ap events_of g in
      let shape = on_command-shape now e cmd (events_of log) l.server v.leads q in
      (
        q,
        elim (Run-cases
            (run_command env add_ms now (record (l.server) { requests = events_of log }) cmd)) [
              | inl a ↦ inl (a, shape ∙ rw a refl)
              | inr (u, a) ↦
                  let d : on_command env add_ms now l.server cmd
                      ≡ returns (answer env add_ms now (some e) u) =
                    shape ∙ rw a refl in
                  inr (
                    u,
                    answer env add_ms now (some e) u,
                    a,
                    d,
                    answered now e u,
                    ap (λ (c : List ℕ × List Request × State). c.0)
                        (taken_core now e cmd (events_of log) l.server _ v.leads q d),
                  )
            ],
      )
