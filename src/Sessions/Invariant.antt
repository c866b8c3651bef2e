-- ===== src/Sessions/Invariant.antt =====
-- The invariant of the session manager, which its operations keep.
use pyxis.Prelude.{
  ℕ, ◌+◌, ◌^◌, ◌<◌, ◌≤◌, Bool, true, false, List, [], ◌∷◌, none, some, ◌≡◌, refl, ap, arith,
  if◌then◌else◌, ltb, ◌==◌, inl, inr, Bool-cases, Option-cases, ◌∙◌,
}
use pyxis.Maps.{find, insert_new, set_erase, find-assign, find-erase, set_insert}
use pyxis.Maps.Keys.{nat_key}
use pyxis.Maps.Ascending.{ascending, ascending-assign, ascending-erase}
use pyxis.Sessions.{Session}
use pyxis.Sessions.Manager.{
  Manager, touch, insert_session, raise_sid, remove, step, gen_sid, restart, remove_from_timers,
  insert_timer, without_timer, round_to,
}
use pyxis.Sessions.Timers.{IsTimed, touch-IsTimed, insert_session-IsTimed, remove-IsTimed}
use pyxis.Sessions.Expiry.{step_lem}

-- An id is that of a session.
unfoldable pub is_known : ℕ → List (ℕ × Session) → Bool
is_known sid sessions = elim (find sid sessions) [ none ↦ false | some s ↦ true ]

-- The sets hold exactly the sessions, each at its own time, and stand in ascending order; no session
-- has an id above the last one given out.
pub record IsManager (m : Manager) : Type 0 where
  pub timed : IsTimed m
  pub sorted : ascending m.timers ≡ true
  pub below : (i : ℕ) → is_known i m.sessions ≡ true → i ≤ m.sid

insert_timer-ascending :
    (i e : ℕ) (timers : List (ℕ × List ℕ))
    → ascending timers ≡ true
    → ascending (insert_timer i e timers) ≡ true
unfolding insert_timer
insert_timer-ascending i e timers h = elim (Option-cases (find e timers)) [
  | inl w ↦ ground (arith, ascending-assign e (i ∷ []) timers h)
  | inr (set, w) ↦ ground (arith, ascending-assign e (set_insert i set) timers h)
]

without_timer-ascending :
    (i e : ℕ) (timers : List (ℕ × List ℕ)) (set : List ℕ)
    → ascending timers ≡ true
    → ascending (without_timer i e timers set) ≡ true
unfolding without_timer
without_timer-ascending i e timers [] h = ascending-erase e timers h
without_timer-ascending i e timers (k ∷ set) h = ascending-assign e (k ∷ set) timers h

remove_from_timers-ascending :
    (i e : ℕ) (timers : List (ℕ × List ℕ))
    → ascending timers ≡ true
    → ascending (remove_from_timers i e timers) ≡ true
unfolding remove_from_timers
remove_from_timers-ascending i e timers h = elim (Option-cases (find e timers)) [
  | inl w ↦ ground arith
  | inr (set, w) ↦ ground (arith, without_timer-ascending i e timers (set_erase i set) h)
]

module _ (add_ms : ℕ → ℕ → ℕ) (now : ℕ) (m : Manager) where
  restart-sorted :
      (sid : ℕ) (s : Session)
      → ascending m.timers ≡ true
      → ascending (restart add_ms now sid s m).timers ≡ true
  unfolding restart
  restart-sorted sid s h =
      insert_timer-ascending sid _ _ (remove_from_timers-ascending sid s.expire m.timers h)

  touch-sorted :
      (sid : ℕ) (m' : Manager)
      → ascending m.timers ≡ true
      → touch add_ms now sid m ≡ some m'
      → ascending m'.timers ≡ true
  unfolding touch
  touch-sorted sid m' a h = elim (Option-cases (find sid m.sessions)) [
    | inl e ↦ absurd (ground arith)
    | inr (s, e) ↦ ground (arith, restart-sorted sid s a)
  ]

  touch-known :
      (sid i : ℕ) (m' : Manager)
      → touch add_ms now sid m ≡ some m'
      → (m'.sid ≡ m.sid) × (is_known i m'.sessions ≡ is_known i m.sessions)
  unfolding touch restart is_known
  touch-known sid i m' h = elim (Option-cases (find sid m.sessions)) [
    | inl e ↦ absurd (ground arith)
    | inr (s, e) ↦ (
      ground arith,
      ground (
        arith,
        find-assign sid i (record s { expire = round_to (add_ms now s.timeout) m.interval })
            m.sessions,
        ap (λ (j : ℕ). find j m.sessions),
      ),
    )
  ]

  -- Touch of a known session does not abort and keeps the invariant.
  pub touch-IsManager :
      (sid : ℕ)
      → IsManager m
      → is_known sid m.sessions ≡ true
      → (m' : Manager) × (touch add_ms now sid m ≡ some m') × IsManager m'
  unfolding is_known
  touch-IsManager sid v h = elim (Option-cases (find sid m.sessions)) [
    | inl e ↦ absurd (ground arith)
    | inr (s, e) ↦
        let (m', w, t) = touch-IsTimed add_ms now m sid s v.timed e in
        (
          m',
          w,
          record {
            timed = t;
            sorted = touch-sorted sid m' v.sorted w;
            below = λ i k. ground (arith, touch-known sid i m' w, v.below i);
          },
        )
  ]

module _ (add_ms : ℕ → ℕ → ℕ) (now : ℕ) (m : Manager) where
  -- The manager's part of Add, for an active session, does not abort and keeps the invariant, whether
  -- or not the id is known already; its id is known behind it.
  pub insert_session-IsManager :
      (s : Session)
      → IsManager m
      → s.active ≡ true
      → (m' : Manager) × (insert_session add_ms now s (raise_sid s.sid m) ≡ some m')
        × IsManager m'
        × (is_known s.sid m'.sessions ≡ true)
  unfolding insert_session raise_sid insert_new is_known
  insert_session-IsManager s v a =
      let m1 : Manager = record m {
        sid = if ltb m.sid s.sid then s.sid else m.sid;
        sessions = insert_new s.sid s m.sessions;
      } in
      let (m', w, t) = insert_session-IsTimed add_ms now m s v.timed a in
      let touched : touch add_ms now s.sid m1 ≡ some m' = w in
      (
        m',
        w,
        record {
          timed = t;
          sorted = touch-sorted add_ms now m1 s.sid m' v.sorted touched;
          below = λ i k. ground (
            arith,
            touch-known add_ms now m1 s.sid i m' touched,
            v.below i,
            find-assign s.sid i s m.sessions,
          );
        },
        ground (
          arith,
          touch-known add_ms now m1 s.sid s.sid m' touched,
          find-assign s.sid s.sid s m.sessions,
        ),
      )

  -- Step keeps the invariant.
  pub step-IsManager : (after : ℕ) → IsManager m → IsManager (step add_ms now after m).0
  unfolding step is_known
  step-IsManager after v =
      let (shown, t, same) = step_lem add_ms now after m v.timed v.sorted in
      record {
        timed = t;
        sorted = ap ascending same ∙ v.sorted;
        below = λ i k. ground (arith, v.below i, shown i);
      }

-- Remove of a session that is closed does not abort before its write to the store, forgets that
-- session and no other, and keeps the invariant.
pub remove-IsManager :
    (m : Manager) (sid : ℕ) (s : Session)
    → IsManager m
    → find sid m.sessions ≡ some s
    → s.active ≡ false
    → (m' : Manager) × (remove sid m ≡ some m')
      × IsManager m'
      × ((i : ℕ) → find i m'.sessions ≡ (if sid == i then none else find i m.sessions))
unfolding remove is_known
remove-IsManager m sid s v h a =
    let (m', w, t, gone) = remove-IsTimed m sid s v.timed h a in
    (
      m',
      w,
      record {
        timed = t;
        sorted = ground (arith, remove_from_timers-ascending sid s.expire m.timers v.sorted);
        below = λ i k. ground (arith, v.below i, find-erase sid i m.sessions);
      },
      λ i. ground (arith, find-erase sid i m.sessions),
    )

-- Where the last id is below 2^64 - 1, GenSid gives an id that no session has, leaves the sessions as
-- they are, and keeps the invariant.
pub gen_sid-fresh :
    (m : Manager)
    → IsManager m
    → m.sid + 1 < 2 ^ 64
    → IsManager (gen_sid m).0
      × (is_known (gen_sid m).1 m.sessions ≡ false)
      × ((gen_sid m).0.sessions ≡ m.sessions)
unfolding gen_sid IsTimed
gen_sid-fresh m v h = (
  record { timed = v.timed; sorted = v.sorted; below = λ i k. omega (arith, v.below i k) },
  elim (Bool-cases (is_known (m.sid + 1) m.sessions)) [
    | inl e ↦ absurd (omega (arith, v.below (m.sid + 1) e))
    | inr e ↦ ground arith
  ],
  refl,
)
