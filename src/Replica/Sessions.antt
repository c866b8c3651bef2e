-- ===== src/Replica/Sessions.antt =====
-- The session manager, seen on the replica: who owns what.
use pyxis.Prelude.{
  ℕ, false, [], Option, none, some, ◌≡◌, refl, ap, ◌∙◌, arith, ◌==◌, if◌then◌else◌, ==_iff,
  Bool-cases, Option-cases, inl, inr, fun_ext, subst, ltb, List,
}
use pyxis.Maps.{find, find-assign, find-erase, insert_new, erase, assign}
use pyxis.Maps.Keys.{nat_key}
use pyxis.Sessions.{Session, new_session}
use pyxis.Sessions.Manager
use pyxis.Sessions.Manager.{Manager, touch, restart, remove_from_timers}
use pyxis.Replica.{Owner, owner, set_at, add_owner}

-- The owners of a manager.
abbrev pub owners : Manager → ℕ → Option Owner
owners m k = owner (find k m.sessions)

-- The owner of an id among sessions.
abbrev pub owner_at : List (ℕ × Session) → ℕ → Option Owner
owner_at sessions k = owner (find k sessions)

-- A session replaced by one with the same id and the same nodes.
pub assign-owner :
    (i k : ℕ) (x y : Session) (sessions : List (ℕ × Session))
    → find i sessions ≡ some x
    → owner (some y) ≡ owner (some x)
    → owner_at (assign i y sessions) k ≡ owner_at sessions k
assign-owner i k x y sessions h e = elim (Bool-cases (i == k)) [
  | inl b ↦
      let there : find k sessions ≡ some x =
        subst (λ j. find j sessions ≡ some x) ((==_iff i k).0 b) h in
      ap owner (find-assign i k y sessions) ∙ rw (b, there) e
  | inr b ↦ ap owner (find-assign i k y sessions) ∙ rw b refl
]

module _ (add_ms : ℕ → ℕ → ℕ) (now : ℕ) where
  restart-owners :
      (m : Manager) (sid k : ℕ) (x : Session)
      → find sid m.sessions ≡ some x
      → owners (restart add_ms now sid x m) k ≡ owners m k
  unfolding restart
  restart-owners m sid k x h =
      assign-owner sid k x
        (record x { expire = Manager.round_to (add_ms now x.timeout) m.interval }) m.sessions h refl

  -- Touch changes no owner.
  pub touch-owners :
      (m m' : Manager) (sid k : ℕ) → touch add_ms now sid m ≡ some m' → owners m' k ≡ owners m k
  unfolding touch
  touch-owners m m' sid k h = elim (Option-cases (find sid m.sessions)) [
    | inl e ↦ absurd (ground (arith, e, h))
    | inr (x, e) ↦ ground (arith, e, h, restart-owners m sid k x e)
  ]

  touched :
      (m : Manager) (sid : ℕ) (x : Session)
      → find sid m.sessions ≡ some x
      → (m' : Manager) × (touch add_ms now sid m ≡ some m') × ((k : ℕ) → owners m' k ≡ owners m k)
  unfolding touch
  touched m sid x h =
      let m' : Manager = if x.active then restart add_ms now sid x m else m in
      let e : touch add_ms now sid m ≡ some m' = rw (h, touch) refl in
      (m', e, λ k. touch-owners m m' sid k e)

  inserted :
      (sid k : ℕ) (x : Session) (sessions : List (ℕ × Session))
      → owner (some x) ≡ some (sid, [])
      → owner (find k (insert_new sid x sessions)) ≡ add_owner sid (λ j. owner (find j sessions)) k
  unfolding insert_new add_owner set_at
  inserted sid k x sessions e = elim (Option-cases (find sid sessions)) [
    | inr (y, h) ↦ rw (h, insert_new, add_owner) refl
    | inl h ↦
        rw (h, insert_new, add_owner) (ap owner (find-assign sid k x sessions) ∙ ground (arith, e))
  ]

  inserted-there :
      (sid : ℕ) (x : Session) (sessions : List (ℕ × Session))
      → (y : Session) × (find sid (insert_new sid x sessions) ≡ some y)
  unfolding insert_new
  inserted-there sid x sessions = elim (Option-cases (find sid sessions)) [
    | inr (y, h) ↦ (y, rw (h, insert_new) h)
    | inl h ↦ (x, rw (h, insert_new) (ground (arith, find-assign sid sid x sessions)))
  ]

  -- Add gives an owner to an id that has none.
  pub add-owners :
      (m : Manager) (sid timeout : ℕ)
      → (m' : Manager) × (Manager.insert_session add_ms now
            (new_session now sid timeout)
            (Manager.raise_sid sid m)
          ≡ some m')
        × ((k : ℕ) → owners m' k ≡ add_owner sid (owners m) k)
  unfolding Manager.insert_session Manager.raise_sid
  add-owners m sid timeout =
      let x : Session = new_session now sid timeout in
      let n : Manager = record m {
        sid = if ltb m.sid sid then sid else m.sid;
        sessions = insert_new sid x m.sessions;
      } in
      let (y, h) = inserted-there sid x m.sessions in
      let (m', e, w) = touched n sid y h in (m', e, λ k. w k ∙ inserted sid k x m.sessions refl)

-- Remove takes the owner at an id away.
remove-owners :
    (m : Manager) (sid : ℕ) (x : Session)
    → find sid m.sessions ≡ some x
    → x.active ≡ false
    → (m' : Manager) × (Manager.remove sid m ≡ some m')
      × ((k : ℕ) → owners m' k ≡ set_at sid none (owners m) k)
unfolding Manager.remove set_at
remove-owners m sid x h a = (
  record m { sessions = erase sid m.sessions; timers = remove_from_timers sid x.expire m.timers },
  rw (h, a, Manager.remove) refl,
  λ k. ground (arith, find-erase sid k m.sessions),
)

-- Close and then Remove.
pub closed-owners :
    (m : Manager) (sid : ℕ) (x : Session)
    → find sid m.sessions ≡ some x
    → x.sid ≡ sid
    → (m' : Manager) × (Manager.remove sid
          (record m { sessions = assign x.sid (record x { active = false }) m.sessions })
        ≡ some m')
      × (owners m' ≡ set_at sid none (owners m))
unfolding set_at
closed-owners m sid x h at =
    let closed : Session = record x { active = false } in
    let n : Manager = record m { sessions = assign x.sid closed m.sessions } in
    let put : (k : ℕ)
        → find k n.sessions ≡ (if x.sid == k then some closed else find k m.sessions) =
      λ k. find-assign x.sid k closed m.sessions in
    let (m', e, w) = remove-owners n sid closed (ground (arith, put sid)) refl in
    (m', e, fun_ext (λ k. w k ∙ ground (arith, put k)))
