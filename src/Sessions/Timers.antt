-- ===== src/Sessions/Timers.antt =====
-- The sets of expiring sessions and the sessions' own times agree.
use pyxis.Prelude.{
  ℕ, Bool, true, false, not, ◌&&◌, ◌||◌, List, [], ◌∷◌, none, some, ◌≡◌, ◌≢◌, ap, arith,
  if◌then◌else◌, ltb, ◌==◌, inl, inr, Bool-cases, Option-cases,
}
use pyxis.Maps.{
  find, assign, insert_new, erase, set_insert, set_erase, member, find-assign, find-erase,
  member-set_insert, member-set_erase,
}
use pyxis.Maps.Keys.{nat_key}
use pyxis.Sessions.{Session}
use pyxis.Sessions.Manager.{
  Manager, touch, insert_session, raise_sid, remove, remove_from_timers, insert_timer, restart,
  without_timer, round_to,
}

-- A session is in the set of a time.
unfoldable pub is_timed : ℕ → ℕ → List (ℕ × List ℕ) → Bool
unfolding find member
is_timed sid t timers = elim (find t timers) [ none ↦ false | some set ↦ member sid set ]

-- The session of an id expires at a time.
unfoldable pub expires : ℕ → ℕ → List (ℕ × Session) → Bool
unfolding find
expires sid t sessions = elim (find sid sessions) [ none ↦ false | some s ↦ s.expire == t ]

is_timed-insert_timer :
    (i e j t : ℕ) (timers : List (ℕ × List ℕ))
    → is_timed j t (insert_timer i e timers) ≡ ((i == j && e == t) || is_timed j t timers)
unfolding is_timed insert_timer
is_timed-insert_timer i e j t timers = elim (Option-cases (find e timers)) [
  | inl h ↦ ground (arith, find-assign e t (i ∷ []) timers, ap (λ (x : ℕ). find x timers))
  | inr (set, h) ↦
      ground (arith, find-assign e t (set_insert i set) timers, member-set_insert i j set)
]

is_timed-without_timer :
    (i e j t : ℕ) (timers : List (ℕ × List ℕ)) (set : List ℕ)
    → is_timed j t (without_timer i e timers set)
      ≡ (if e == t then member j set else is_timed j t timers)
unfolding is_timed without_timer member
is_timed-without_timer i e j t timers [] = ground (arith, find-erase e t timers)
is_timed-without_timer i e j t timers (k ∷ set) = ground (arith, find-assign e t (k ∷ set) timers)

is_timed-remove_from_timers :
    (i e j t : ℕ) (timers : List (ℕ × List ℕ))
    → is_timed j t (remove_from_timers i e timers) ≡ (not (i == j && e == t) && is_timed j t timers)
unfolding is_timed remove_from_timers
is_timed-remove_from_timers i e j t timers = elim (Option-cases (find e timers)) [
  | inl h ↦ ground (arith, ap (λ (x : ℕ). find x timers))
  | inr (set, h) ↦
      ground
        (arith, is_timed-without_timer i e j t timers (set_erase i set), member-set_erase i j set)
]

-- The manager's sets hold exactly the sessions, each at its own time.
unfoldable pub IsTimed : Manager → Type 0
unfolding is_timed expires
IsTimed m = (sid t : ℕ) → is_timed sid t m.timers ≡ expires sid t m.sessions

module _ (add_ms : ℕ → ℕ → ℕ) (now : ℕ) (m : Manager) where
  -- Touch of a session that may stand in no set.
  touch-found :
      (sid : ℕ) (s : Session)
      → find sid m.sessions ≡ some s
      → s.active ≡ true
      → ((j t : ℕ) → is_timed j t m.timers ≡ true → expires j t m.sessions ≡ true)
      → ((j t : ℕ) → j ≢ sid → expires j t m.sessions ≡ true → is_timed j t m.timers ≡ true)
      → IsTimed (restart add_ms now sid s m)
  unfolding IsTimed restart expires
  touch-found sid s h a f g j t =
      let e : ℕ = round_to (add_ms now s.timeout) m.interval in
      ground (
        arith,
        is_timed-insert_timer sid e j t (remove_from_timers sid s.expire m.timers),
        is_timed-remove_from_timers sid s.expire j t m.timers,
        find-assign sid j (record s { expire = e }) m.sessions,
        f j t,
        g j t,
        ap (λ (i : ℕ). find i m.sessions),
      )

  touch-active :
      (sid : ℕ) (s : Session)
      → find sid m.sessions ≡ some s
      → s.active ≡ true
      → touch add_ms now sid m ≡ some (restart add_ms now sid s m)
  unfolding touch
  touch-active sid s h a = ground arith

  -- Touch keeps the sets and the sessions' times in agreement, and returns for a known session.
  pub touch-IsTimed :
      (sid : ℕ) (s : Session)
      → IsTimed m
      → find sid m.sessions ≡ some s
      → (m' : Manager) × (touch add_ms now sid m ≡ some m') × IsTimed m'
  unfolding touch IsTimed
  touch-IsTimed sid s v h = elim (Bool-cases s.active) [
    | inl a ↦ (
      restart add_ms now sid s m,
      ground arith,
      touch-found sid s h a (λ j t e. ground (arith, v j t)) (λ j t n e. ground (arith, v j t)),
    )
    | inr a ↦ (m, ground arith, v)
  ]

module _ (add_ms : ℕ → ℕ → ℕ) (now : ℕ) (m : Manager) (s : Session) where
  abbrev counted : ℕ
  counted = if ltb m.sid s.sid then s.sid else m.sid

  -- Add of an active session, with whatever expiry time, keeps the sets and the times in agreement
  -- and does not abort.
  pub insert_session-IsTimed :
      IsTimed m
      → s.active ≡ true
      → (m' : Manager) × (insert_session add_ms now s (raise_sid s.sid m) ≡ some m') × IsTimed m'
  unfolding insert_session raise_sid insert_new IsTimed expires
  insert_session-IsTimed v a = elim (Option-cases (find s.sid m.sessions)) [
    | inl h ↦
        let m1 : Manager = record m { sid = counted; sessions = assign s.sid s m.sessions } in
        let known : find s.sid m1.sessions ≡ some s =
          ground (arith, find-assign s.sid s.sid s m.sessions) in
        (
          restart add_ms now s.sid s m1,
          ground (arith, touch-active add_ms now m1 s.sid s known a),
          touch-found add_ms now m1 s.sid s known a
              (λ j t e.
                ground (
                  arith,
                  v j t,
                  find-assign s.sid j s m.sessions,
                  ap (λ (i : ℕ). find i m.sessions),
                ))
              (λ j t n e. ground (arith, v j t, find-assign s.sid j s m.sessions)),
        )
    | inr (old, h) ↦
        let m1 : Manager = record m { sid = counted } in
        let (m', e, w) = touch-IsTimed add_ms now m1 s.sid old v h in (m', ground arith, w)
  ]

-- Remove of a session that is closed does not abort, forgets the session, and keeps the sets and the
-- times in agreement.
pub remove-IsTimed :
    (m : Manager) (sid : ℕ) (s : Session)
    → IsTimed m
    → find sid m.sessions ≡ some s
    → s.active ≡ false
    → (m' : Manager) × (remove sid m ≡ some m') × IsTimed m' × (find sid m'.sessions ≡ none)
unfolding remove IsTimed expires
remove-IsTimed m sid s v h a = (
  record m { sessions = erase sid m.sessions; timers = remove_from_timers sid s.expire m.timers },
  ground arith,
  λ j t. ground (
    arith,
    is_timed-remove_from_timers sid s.expire j t m.timers,
    v j t,
    find-erase sid j m.sessions,
    ap (λ (i : ℕ). find i m.sessions),
  ),
  ground (arith, find-erase sid sid m.sessions),
)
