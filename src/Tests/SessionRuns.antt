-- ===== src/Tests/SessionRuns.antt =====
-- Runs of the session manager.
use pyxis.Prelude.{
  ℕ, ◌+◌, ◌*◌, ◌≤◌, true, false, ◌&&◌, List, [], ◌∷◌, Option, none, some, ◌≡◌, refl, sym, ap, ◌∙◌,
  subst, arith, sym, ◌∙◌, subst,
}
use pyxis.Maps.{find, assign, member}
use pyxis.Maps.Ascending.{ascending}
use pyxis.Maps.Keys.{nat_key}
use pyxis.Sessions.{Session, new_session}
use pyxis.Sessions.Manager.{
  Manager, touch, insert_session, raise_sid, step, gen_sid, round_to, reset_timer, insert_timer,
  remove_from_timers, restart,
}
use pyxis.Sessions.Timers.{IsTimed, is_timed, expires}
use pyxis.Sessions.Expiry.{step_lem, is_past, is_live, shut_if}
use pyxis.Sessions.Invariant.{
  IsManager, is_known, touch-IsManager, insert_session-IsManager, step-IsManager, gen_sid-fresh,
}
use pyxis.Sessions.Clock.{round_to_lem}

abbrev pub add_ms : ℕ → ℕ → ℕ
add_ms now t = now + t * 1000

-- A check every second.
abbrev pub fresh : Manager
fresh = record { sid = 5; interval = 1000; sessions = []; timers = [] }

pub fresh-IsManager : IsManager fresh
unfolding IsTimed is_timed expires is_known ascending
fresh-IsManager = record { timed = λ i t. refl; sorted = refl; below = λ i h. ground arith }

-- At time 0 session 7 joins with a timeout of 5 s.
abbrev pub seven : Session
seven = new_session 0 7 5000

one_session : Manager
unfolding insert_session raise_sid restart insert_timer remove_from_timers round_to
one_session = elim (insert_session add_ms 0 seven (raise_sid 7 fresh)) [ none ↦ fresh | some m ↦ m ]

one_session-made : insert_session add_ms 0 seven (raise_sid 7 fresh) ≡ some one_session
unfolding one_session
one_session-made = refl

one_session-IsManager : IsManager one_session
one_session-IsManager =
    let (m', e, v, _) = insert_session-IsManager add_ms 0 fresh seven fresh-IsManager refl in
    let same : m' ≡ one_session =
      ap (λ (o : Option Manager). elim o [ none ↦ fresh | some m ↦ m ])
        (sym e ∙ one_session-made) in
    subst IsManager same v

known : is_known 7 one_session.sessions ≡ true
unfolding one_session is_known
known = refl

touch-IsManager_example :
    (m' : Manager) × (touch add_ms 1000000 7 one_session ≡ some m') × IsManager m'
touch-IsManager_example = touch-IsManager add_ms 1000000 one_session 7 one_session-IsManager known

step_lem_example :
    (let r = step add_ms 9000000 9000000 one_session in
      ((sid : ℕ)
        → (member sid r.1
            ≡ (is_past 9000000 sid one_session.sessions && is_live sid one_session.sessions))
          × (find sid r.0.sessions
              ≡ shut_if (is_past 9000000 sid one_session.sessions) (find sid one_session.sessions)))
      × IsTimed r.0
      × (r.0.timers ≡ one_session.timers))
step_lem_example =
    step_lem add_ms 9000000 9000000 one_session one_session-IsManager.timed
      one_session-IsManager.sorted

-- At 9 s session 7 is closed.
pub closed : Manager
unfolding one_session step
closed = (step add_ms 9000000 9000000 one_session).0

pub closed-IsManager : IsManager closed
unfolding closed
closed-IsManager = step-IsManager add_ms 9000000 one_session 9000000 one_session-IsManager

abbrev pub shut_seven : Session
shut_seven = record seven { expire = 5000000; active = false }

pub closed-seven : find 7 closed.sessions ≡ some shut_seven
unfolding closed
closed-seven = refl

gen_sid-fresh_example :
    IsManager (gen_sid fresh).0
    × (is_known (gen_sid fresh).1 fresh.sessions ≡ false)
    × ((gen_sid fresh).0.sessions ≡ fresh.sessions)
gen_sid-fresh_example = gen_sid-fresh fresh fresh-IsManager (omega arith)

round_to_lem_example :
    (round_to 1760000000123456 1000 ≤ 1760000000123456 + 500 * 1000)
    × (1760000000123456 ≤ round_to 1760000000123456 1000 + 500 * 1000)
    × ((q : ℕ) × (round_to 1760000000123456 1000 ≡ q * (1000 * 1000)))
round_to_lem_example =
    round_to_lem 1760000000123456 1000 (omega arith) (omega arith) (omega arith) (omega arith)

rounds : round_to 1760000000723456 1000 ≡ 1760000001000000
unfolding round_to
rounds = refl

-- Two sessions that expire at different times, with one timeout.
abbrev two_sessions : Manager
two_sessions = record {
  sid = 8;
  interval = 1000;
  sessions =
      (7, record seven { expire = 5000000 })
      ∷ (8, record (new_session 0 8 5000) { expire = 6000000 })
      ∷ [];
  timers = (5000000, 7 ∷ []) ∷ (6000000, 8 ∷ []) ∷ [];
}

abbrev least : List ℕ → ℕ
least [] = 0
least (i ∷ set) = i

-- Where both rounds of ResetTimer read the same time, the set of the second session takes the place
-- of the first session's, which is in no set any more and never expires.
lost :
    reset_timer add_ms (λ i. 1000) least two_sessions
    ≡ some (record {
      sid = 8;
      interval = 1000;
      sessions =
          (7, record seven { expire = 5001000 })
          ∷ (8, record (new_session 0 8 5000) { expire = 5001000 })
          ∷ [];
      timers = (5001000, 8 ∷ []) ∷ [];
    })
unfolding reset_timer find assign
lost = refl
