-- ===== src/Sessions/Manager.antt =====
-- server/session_manager.cc: the sessions by their ids, and the sets of sessions that expire at one
-- time.
use pyxis.Prelude.{
  ℕ, ◌+◌, ◌*◌, ◌/◌, ◌%◌, ◌^◌, false, List, [], ◌∷◌, ◌++◌, Option, none, some, map, if◌then◌else◌,
  ltb,
}
use pyxis.Maps.{find, assign, insert_new, erase, set_insert, set_erase}
use pyxis.Maps.Keys.{nat_key}
use pyxis.Double.{Double, nearest, of_integer, truncated}
use pyxis.Sessions.{Session, Answer, ping_back, reset_watch}

-- begin / step + 0.5, cut off, for a step in microseconds, and its product with the step.
unfoldable pub rounded : Double → ℕ → ℕ
unfolding nearest
rounded begin s =
    let ratio = nearest begin.0 (begin.1 * s) in
    truncated (nearest (2 * ratio.0 + ratio.1) (2 * ratio.1)) * s

-- roundTo, in the doubles of the source. The step is in milliseconds, and its product with 1000 is an
-- int, whose overflow, above 2147483, is undefined.
unfoldable pub round_to : ℕ → ℕ → ℕ
unfolding rounded of_integer
round_to t step = rounded (of_integer t) (step * 1000)

-- initSid at a time, for myid 0: the milliseconds in bytes 1 to 5 of the word.
unfoldable pub init_sid : ℕ → ℕ
init_sid now = now / 1000 * 2 ^ 24 % 2 ^ 64 / 2 ^ 8

-- SessionManager. A session pointer in a set of timers_ is the id of the session, since Touch takes
-- every pointer that it puts there from sessions_.
pub record Manager : Type 0 where
  pub sid : ℕ
  pub interval : ℕ
  pub sessions : List (ℕ × Session)
  pub timers : List (ℕ × List ℕ)

abbrev pub new_manager : ℕ → ℕ → Manager
unfolding init_sid
new_manager now interval = record {
  sid = init_sid now;
  interval = interval;
  sessions = [];
  timers = [];
}

-- GenSid, on 64 bits.
unfoldable pub gen_sid : Manager → Manager × ℕ
gen_sid m = let sid = (m.sid + 1) % 2 ^ 64 in (record m { sid = sid }, sid)

-- Get.
abbrev pub get_session : Manager → ℕ → Option Session
get_session m sid = find sid m.sessions

-- GetSessions.
abbrev pub get_sessions : Manager → ℕ → Option (List ℕ)
get_sessions m when = find when m.timers

-- set.erase(s), and timers_.erase(it) where the set is empty.
unfoldable pub without_timer : ℕ → ℕ → List (ℕ × List ℕ) → List ℕ → List (ℕ × List ℕ)
without_timer sid expire timers [] = erase expire timers
without_timer sid expire timers (i ∷ set) = assign expire (i ∷ set) timers

-- removeFromTimers, for a session that Get finds.
unfoldable pub remove_from_timers : ℕ → ℕ → List (ℕ × List ℕ) → List (ℕ × List ℕ)
unfolding without_timer
remove_from_timers sid expire timers = elim (find expire timers) [
  | none ↦ timers
  | some set ↦ without_timer sid expire timers (set_erase sid set)
]

-- timers_[expire].insert(s).
unfoldable pub insert_timer : ℕ → ℕ → List (ℕ × List ℕ) → List (ℕ × List ℕ)
insert_timer sid expire timers = elim (find expire timers) [
  | none ↦ assign expire (sid ∷ []) timers
  | some set ↦ assign expire (set_insert sid set) timers
]

-- Add before its write to the store: the last id given out is not below that of a session.
unfoldable pub raise_sid : ℕ → Manager → Manager
raise_sid sid m = record m { sid = if ltb m.sid sid then sid else m.sid }

-- `add_ms now t` is muduo::addTime(now, static_cast<double>(t) / 1000).
module _ (add_ms : ℕ → ℕ → ℕ) where
  unfoldable pub restart : ℕ → ℕ → Session → Manager → Manager
  unfolding remove_from_timers insert_timer
  restart now sid s m =
      let expire = round_to (add_ms now s.timeout) m.interval in
      record m {
        sessions = assign sid (record s { expire = expire }) m.sessions;
        timers = insert_timer sid expire (remove_from_timers sid s.expire m.timers);
      }

  -- Touch, at a time; none where the CHECK fails.
  unfoldable pub touch : ℕ → ℕ → Manager → Option Manager
  unfolding restart
  touch now sid m = elim (find sid m.sessions) [
    | none ↦ none
    | some s ↦ some (if s.active then restart now sid s m else m)
  ]

  -- Add behind its write to the store: the insertion and Touch.
  unfoldable pub insert_session : ℕ → Session → Manager → Option Manager
  unfolding touch insert_new
  insert_session now s m = touch now s.sid (record m { sessions = insert_new s.sid s m.sessions })

  -- The sessions of one set: Close those that are active.
  unfoldable pub close_set : List ℕ → List (ℕ × Session) → List (ℕ × Session) × List ℕ
  close_set [] sessions = (sessions, [])
  close_set (i ∷ set) sessions = elim (find i sessions) [
    | none ↦ close_set set sessions
    | some s ↦
        let closing = close_set set (assign i (record s { active = false }) sessions) in
        let others = close_set set sessions in
        if s.active then (closing.0, i ∷ closing.1) else others
  ]

  -- The loop of Step, up to timers_.lower_bound(now).
  unfoldable pub close_before :
      ℕ → List (ℕ × List ℕ) → List (ℕ × Session) → List (ℕ × Session) × List ℕ
  unfolding close_set
  close_before now [] sessions = (sessions, [])
  close_before now ((t, set) ∷ timers) sessions =
      let (closed, ids) = close_set set sessions in
      let (rest, more) = close_before now timers closed in
      if ltb t now then (rest, ids ++ more) else (sessions, [])

  -- Step, at the two times that it reads: the manager, the sessions closed, for each of which the
  -- callback runs, in order, and the time of the next check.
  unfoldable pub step : ℕ → ℕ → Manager → Manager × List ℕ × ℕ
  unfolding close_before
  step now after m =
      let (sessions, closed) = close_before now m.timers m.sessions in
      (record m { sessions = sessions }, closed, round_to (add_ms after m.interval) m.interval)

  unfoldable pub set_expire : ℕ → List ℕ → List (ℕ × Session) → List (ℕ × Session)
  set_expire expire [] sessions = sessions
  set_expire expire (i ∷ set) sessions = elim (find i sessions) [
    | none ↦ set_expire expire set sessions
    | some s ↦ set_expire expire set (assign i (record s { expire = expire }) sessions)
  ]

  -- (*set.begin())->Timeout(), for the session whose pointer is least.
  unfoldable pub first_timeout : (List ℕ → ℕ) → List ℕ → List (ℕ × Session) → ℕ
  first_timeout begin set sessions = elim (find (begin set) sessions) [
    | none ↦ 0
    | some s ↦ s.timeout
  ]

  -- The loop of ResetTimer: newTimers[expire] swaps with the set. `now i` is the time in the i-th
  -- round.
  unfoldable pub reset_loop :
      (ℕ → ℕ)
      → (List ℕ → ℕ)
      → ℕ
      → List (ℕ × List ℕ)
      → List (ℕ × List ℕ)
      → List (ℕ × Session)
      → Option (List (ℕ × List ℕ) × List (ℕ × Session))
  unfolding set_expire first_timeout
  reset_loop now begin i [] made sessions = some (made, sessions)
  reset_loop now begin i ((t, []) ∷ timers) made sessions = none
  reset_loop now begin i ((t, x ∷ set) ∷ timers) made sessions =
      let expire = add_ms (now i) (first_timeout begin (x ∷ set) sessions) in
      reset_loop now begin (i + 1) timers (assign expire (x ∷ set) made)
        (set_expire expire (x ∷ set) sessions)

  -- ResetTimer; none where the CHECK of a nonempty set fails.
  unfoldable pub reset_timer : (ℕ → ℕ) → (List ℕ → ℕ) → Manager → Option Manager
  unfolding reset_loop
  reset_timer now begin m = elim (reset_loop now begin 0 m.timers [] m.sessions) [
    | none ↦ none
    | some (timers, sessions) ↦ some (record m { sessions = sessions; timers = timers })
  ]

-- Remove before its write to the store; none where a CHECK fails.
unfoldable pub remove : ℕ → Manager → Option Manager
unfolding remove_from_timers
remove sid m = elim (find sid m.sessions) [
  | none ↦ none
  | some s ↦
      if s.active
      then none
      else some (record m {
        sessions = erase sid m.sessions;
        timers = remove_from_timers sid s.expire m.timers;
      })
]

-- ResetWatchers.
abbrev pub reset_watchers : Manager → Manager
reset_watchers m = record m {
  sessions = map (λ (e : ℕ × Session). (e.0, reset_watch e.1)) m.sessions;
}

unfoldable pub ping_all : ℕ → List (ℕ × Session) → List (ℕ × Session) × List Answer
unfolding ping_back
ping_all now [] = ([], [])
ping_all now ((i, s) ∷ sessions) =
    let (s', answers) = ping_back now s in
    let (rest, more) = ping_all now sessions in ((i, s') ∷ rest, answers ++ more)

-- ResetPendingPing.
unfoldable pub reset_pending_ping : ℕ → Manager → Manager × List Answer
unfolding ping_all
reset_pending_ping now m =
    let (sessions, answers) = ping_all now m.sessions in (record m { sessions = sessions }, answers)
