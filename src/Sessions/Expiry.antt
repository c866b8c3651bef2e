-- ===== src/Sessions/Expiry.antt =====
-- Step closes the sessions whose time has passed, and no other.
use pyxis.Prelude.{
  ℕ, ◌<◌, ◌≤◌, Bool, true, false, ◌&&◌, ◌||◌, List, [], ◌∷◌, ◌++◌, Option, none, some, ◌≡◌, refl,
  ap, arith, if◌then◌else◌, ltb, inl, inr, Bool-cases, Option-cases,
}
use pyxis.Maps.{find, assign, member, find-assign}
use pyxis.Maps.Keys.{nat_key}
use pyxis.Maps.Ascending.{above, ascending, find-above}
use pyxis.Sessions.{Session}
use pyxis.Sessions.Manager.{Manager, step, close_set, close_before}
use pyxis.Sessions.Timers.{is_timed, expires, IsTimed}

-- Close.
abbrev pub shut : Session → Session
shut s = if s.active then record s { active = false } else s

abbrev pub shut_if : Bool → Option Session → Option Session
shut_if b none = none
shut_if b (some s) = some (if b then shut s else s)

-- The session of an id is known and active.
unfoldable pub is_live : ℕ → List (ℕ × Session) → Bool
is_live sid sessions = elim (find sid sessions) [ none ↦ false | some s ↦ s.active ]

-- Some set before a time, up to the first set that is not, holds the id.
unfoldable due : ℕ → ℕ → List (ℕ × List ℕ) → Bool
due j now [] = false
due j now ((t, set) ∷ timers) = ltb t now && (member j set || due j now timers)

member-append : (j : ℕ) (a b : List ℕ) → member j (a ++ b) ≡ (member j a || member j b)
unfolding member
member-append j [] b = refl
member-append j (x ∷ a) b = ground (arith, member-append j a b)

module _ (add_ms : ℕ → ℕ → ℕ) where
  close_set_lem :
      (j : ℕ) (set : List ℕ) (sessions : List (ℕ × Session))
      → (find j (close_set add_ms set sessions).0 ≡ shut_if (member j set) (find j sessions))
        × (member j (close_set add_ms set sessions).1 ≡ (member j set && is_live j sessions))
  unfolding close_set member is_live
  close_set_lem j [] sessions = (ground arith, ground arith)
  close_set_lem j (i ∷ set) sessions = elim (Option-cases (find i sessions)) [
    | inl h ↦ ground (arith, close_set_lem j set sessions, ap (λ (x : ℕ). find x sessions))
    | inr (s, h) ↦
        let to : List (ℕ × Session) = assign i (record s { active = false }) sessions in
        ground (
          arith,
          close_set_lem j set sessions,
          close_set_lem j set to,
          find-assign i j (record s { active = false }) sessions,
          ap (λ (x : ℕ). find x sessions),
        )
  ]

  close_before_lem :
      (j now : ℕ) (timers : List (ℕ × List ℕ)) (sessions : List (ℕ × Session))
      → (find j (close_before add_ms now timers sessions).0
          ≡ shut_if (due j now timers) (find j sessions))
        × (member j (close_before add_ms now timers sessions).1
            ≡ (due j now timers && is_live j sessions))
  unfolding close_before due member is_live
  close_before_lem j now [] sessions = (ground arith, ground arith)
  close_before_lem j now ((t, set) ∷ timers) sessions =
      let next : List (ℕ × Session) = (close_set add_ms set sessions).0 in
      let later : List ℕ = (close_before add_ms now timers next).1 in
      ground (
        arith,
        close_set_lem j set sessions,
        close_before_lem j now timers next,
        member-append j (close_set add_ms set sessions).1 later,
      )

is_timed-above :
    (j k t : ℕ) (timers : List (ℕ × List ℕ))
    → above k timers ≡ true
    → t ≤ k
    → is_timed j t timers ≡ false
unfolding is_timed
is_timed-above j k t timers h w = ground (arith, find-above k t timers w h)

due-is_timed :
    (j now t : ℕ) (timers : List (ℕ × List ℕ))
    → ascending timers ≡ true
    → is_timed j t timers ≡ true
    → t < now
    → due j now timers ≡ true
unfolding is_timed ascending due find above
due-is_timed j now t [] a h w = ground arith
due-is_timed j now t ((k, set) ∷ timers) a h w =
    ground (arith, due-is_timed j now t timers, is_timed-above j k t timers)

is_timed-due :
    (j now : ℕ) (timers : List (ℕ × List ℕ))
    → ascending timers ≡ true
    → due j now timers ≡ true
    → (t : ℕ) × (is_timed j t timers ≡ true) × (t < now)
unfolding is_timed ascending due find
is_timed-due j now [] a h = absurd (ground arith)
is_timed-due j now ((k, set) ∷ timers) a h = elim (Bool-cases (member j set)) [
  | inl e ↦ (k, ground arith, ground arith)
  | inr e ↦
      let (t, w, l) = is_timed-due j now timers (ground arith) (ground arith) in
      (t, ground (arith, is_timed-above j k t timers), l)
]

-- The time of the session has passed.
unfoldable pub is_past : ℕ → ℕ → List (ℕ × Session) → Bool
is_past now sid sessions = elim (find sid sessions) [ none ↦ false | some s ↦ ltb s.expire now ]

due-is_past :
    (m : Manager) (j now : ℕ)
    → IsTimed m
    → ascending m.timers ≡ true
    → due j now m.timers ≡ is_past now j m.sessions
unfolding IsTimed expires is_past
due-is_past m j now v a = elim (Bool-cases (due j now m.timers)) [
  | inl e ↦ let (t, w, l) = is_timed-due j now m.timers a e in ground (arith, v j t)
  | inr e ↦ elim (Option-cases (find j m.sessions)) [
    | inl h ↦ ground arith
    | inr (s, h) ↦ ground (arith, v j s.expire, due-is_timed j now s.expire m.timers a)
  ]
]

module _ (add_ms : ℕ → ℕ → ℕ) (now after : ℕ) (m : Manager) where
  -- On a manager whose sets agree with the sessions' times and stand in ascending order, Step calls
  -- back for exactly the active sessions whose time is before now, and closes exactly those; it
  -- changes nothing else of any session, and the sets still agree with the times.
  pub step_lem :
      IsTimed m
      → ascending m.timers ≡ true
      → (let r = step add_ms now after m in
          ((sid : ℕ)
            → (member sid r.1 ≡ (is_past now sid m.sessions && is_live sid m.sessions))
              × (find sid r.0.sessions
                  ≡ shut_if (is_past now sid m.sessions) (find sid m.sessions)))
          × IsTimed r.0
          × (r.0.timers ≡ m.timers))
  unfolding step IsTimed expires
  step_lem v a =
      let shown : (sid : ℕ)
          → (member sid (close_before add_ms now m.timers m.sessions).1
              ≡ (is_past now sid m.sessions && is_live sid m.sessions))
            × (find sid (close_before add_ms now m.timers m.sessions).0
                ≡ shut_if (is_past now sid m.sessions) (find sid m.sessions)) =
        λ sid. (
          ground (
            arith,
            close_before_lem add_ms sid now m.timers m.sessions,
            due-is_past m sid now v a,
          ),
          ground (
            arith,
            close_before_lem add_ms sid now m.timers m.sessions,
            due-is_past m sid now v a,
          ),
        ) in
      (shown, λ sid t. ground (arith, v sid t, shown sid), refl)
