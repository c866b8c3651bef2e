-- ===== src/Replica/Quiet.antt =====
-- The session manager's own operations leave who owns what as it is.
use pyxis.Prelude.{
  ℕ, false, List, [], ◌∷◌, some, map, ◌≡◌, refl, ◌∙◌, arith, Bool-cases, Option-cases, inl, inr,
  ltb, ◌+◌,
}
use pyxis.Maps.{find, assign}
use pyxis.Maps.Keys.{nat_key}
use pyxis.Sessions.{Session, reset_watch, ping_back}
use pyxis.Sessions.Manager.{
  Manager, step, close_set, close_before, set_expire, reset_loop, reset_timer, ping_all,
}
use pyxis.Replica.Sessions.{owner_at, assign-owner}

module _ (add_ms : ℕ → ℕ → ℕ) (k : ℕ) where
  close_set-owner :
      (set : List ℕ) (sessions : List (ℕ × Session))
      → owner_at (close_set add_ms set sessions).0 k ≡ owner_at sessions k
  unfolding close_set
  close_set-owner [] sessions = refl
  close_set-owner (i ∷ set) sessions = elim (Option-cases (find i sessions)) [
    | inl h ↦ rw (h, close_set) (close_set-owner set sessions)
    | inr (x, h) ↦ elim (Bool-cases x.active) [
      | inr b ↦ rw (h, b, close_set) (close_set-owner set sessions)
      | inl b ↦
          rw (h, b, close_set)
            (close_set-owner set (assign i (record x { active = false }) sessions)
              ∙ assign-owner i k x (record x { active = false }) sessions h refl)
    ]
  ]

  close_before-owner :
      (now : ℕ) (timers : List (ℕ × List ℕ)) (sessions : List (ℕ × Session))
      → owner_at (close_before add_ms now timers sessions).0 k ≡ owner_at sessions k
  unfolding close_before
  close_before-owner now [] sessions = refl
  close_before-owner now ((t, set) ∷ timers) sessions = elim (Bool-cases (ltb t now)) [
    | inr b ↦ rw (b, close_before) refl
    | inl b ↦
        rw (b, close_before)
          (close_before-owner now timers (close_set add_ms set sessions).0
            ∙ close_set-owner set sessions)
  ]

  pub step-owner :
      (now after : ℕ) (m : Manager)
      → owner_at (step add_ms now after m).0.sessions k ≡ owner_at m.sessions k
  unfolding step
  step-owner now after m = close_before-owner now m.timers m.sessions

  set_expire-owner :
      (expire : ℕ) (set : List ℕ) (sessions : List (ℕ × Session))
      → owner_at (set_expire add_ms expire set sessions) k ≡ owner_at sessions k
  unfolding set_expire
  set_expire-owner expire [] sessions = refl
  set_expire-owner expire (i ∷ set) sessions = elim (Option-cases (find i sessions)) [
    | inl h ↦ rw (h, set_expire) (set_expire-owner expire set sessions)
    | inr (x, h) ↦
        rw (h, set_expire)
          (set_expire-owner expire set (assign i (record x { expire = expire }) sessions)
            ∙ assign-owner i k x (record x { expire = expire }) sessions h refl)
  ]

  reset_loop-owner :
      (now : ℕ → ℕ) (begin : List ℕ → ℕ) (i : ℕ) (timers made : List (ℕ × List ℕ))
      (sessions : List (ℕ × Session)) (r : List (ℕ × List ℕ) × List (ℕ × Session))
      → reset_loop add_ms now begin i timers made sessions ≡ some r
      → owner_at r.1 k ≡ owner_at sessions k
  unfolding reset_loop
  reset_loop-owner now begin i [] made sessions r h = ground (arith, h)
  reset_loop-owner now begin i ((t, []) ∷ timers) made sessions r h = absurd (ground (arith, h))
  reset_loop-owner now begin i ((t, x ∷ set) ∷ timers) made sessions r h =
      reset_loop-owner now begin (i + 1) timers _ _ r h ∙ set_expire-owner _ (x ∷ set) sessions

  pub reset_timer-owner :
      (now : ℕ → ℕ) (begin : List ℕ → ℕ) (m m' : Manager)
      → reset_timer add_ms now begin m ≡ some m'
      → owner_at m'.sessions k ≡ owner_at m.sessions k
  unfolding reset_timer
  reset_timer-owner now begin m m' h =
      elim (Option-cases (reset_loop add_ms now begin 0 m.timers [] m.sessions)) [
        | inl e ↦ absurd (ground (arith, h))
        | inr (r, e) ↦ ground (arith, h, reset_loop-owner now begin 0 m.timers [] m.sessions r e)
      ]

module _ (k : ℕ) where
  pub reset_watchers-owner :
      (sessions : List (ℕ × Session))
      → owner_at (map (λ (e : ℕ × Session). (e.0, reset_watch e.1)) sessions) k
        ≡ owner_at sessions k
  unfolding find
  reset_watchers-owner [] = refl
  reset_watchers-owner ((i, x) ∷ sessions) = ground (arith, reset_watchers-owner sessions)

  pub ping_all-owner :
      (now : ℕ) (sessions : List (ℕ × Session))
      → owner_at (ping_all now sessions).0 k ≡ owner_at sessions k
  unfolding ping_all find ping_back
  ping_all-owner now [] = refl
  ping_all-owner now ((i, x) ∷ sessions) = ground (arith, ping_all-owner now sessions)
