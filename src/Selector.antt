-- ===== src/Selector.antt =====
-- base/selector.h and base/selector.cc: what poll tells of the descriptors that were registered.
pub mod Chosen
use pyxis.Prelude.{
  ℕ, zero, suc, ◌+◌, Bool, true, false, List, [], ◌∷◌, ◌++◌, Option, none, some, ◌==◌,
  if◌then◌else◌, length,
}
use pyxis.Maps.{find, assign}
use pyxis.Maps.Keys.{nat_key}

-- What a call of poll gives: EINTR, another error, or for each descriptor whether its revents is set.
pub data Polled : Type 0 where
  interrupted broken : Polled
  ready : List Bool → Polled

-- The number that poll returns.
abbrev pub count_set : List Bool → ℕ
count_set [] = 0
count_set (b ∷ bs) = (if b then 1 else 0) + count_set bs

-- What a call gives: its number and the selectables, where a missing one is NULL. It waits while poll
-- does, and fails a PCHECK where poll does.
pub data Selected (S : Type 0) : Type 0 where
  waiting failed : Selected S
  selected : ℕ → List (Option S) → Selected S

module _ {S : Type 0} (fd_of : S → ℕ) where
  -- Selector. A descriptor stands for its pollfd, whose events are POLLIN throughout.
  pub record Selector : Type 0 where
    pub polls : List ℕ
    pub selectables : List (ℕ × S)

  abbrev pub new_selector : Selector
  new_selector = record { polls = []; selectables = [] }

  -- Register, where none is NULL.
  unfoldable pub register : Option S → Selector → Selector
  register none s = s
  register (some x) s = record {
    polls = s.polls ++ fd_of x ∷ [];
    selectables = assign (fd_of x) x s.selectables;
  }

  -- Reset.
  abbrev pub reset : Selector → Selector
  reset s = new_selector

  -- The loop over the descriptors.
  unfoldable pub chosen : List (ℕ × S) → List ℕ → List Bool → List (Option S)
  chosen selectables (fd ∷ fds) (b ∷ bs) =
      let rest = chosen selectables fds bs in if b then find fd selectables ∷ rest else rest
  chosen selectables _ _ = []

  -- Select, with the results of its calls of poll, the shuffle of its list, and whether it is given a
  -- list.
  unfoldable pub select :
      (List (Option S) → List (Option S)) → Bool → List Polled → Selector → Selected S
  unfolding chosen
  select shuffle wants [] s = waiting
  select shuffle wants (interrupted ∷ calls) s = select shuffle wants calls s
  select shuffle wants (broken ∷ calls) s = failed
  select shuffle wants (ready bs ∷ calls) s =
      if count_set bs == 0
      then selected 0 []
      else if wants
      then selected (count_set bs) (shuffle (chosen s.selectables s.polls bs))
      else selected (count_set bs) []

  -- Wait: its list's first, or NULL where the number is 0; an empty list is read past its end.
  unfoldable pub wait : (List (Option S) → List (Option S)) → List Polled → Selector → Selected S
  unfolding select
  wait shuffle calls s = elim (select shuffle true calls s) [
    | waiting ↦ waiting
    | failed ↦ failed
    | selected n l ↦ elim l [
      | [] ↦ if n == 0 then selected 0 (none ∷ []) else failed
      | x ∷ xs ↦ if n == 0 then selected 0 (none ∷ []) else selected n (x ∷ [])
    ]
  ]

  -- Poll of one selectable: the number, and its CHECK.
  unfoldable pub poll_one : Option S → List Polled → Selected S
  poll_one none calls = selected 0 []
  poll_one (some x) [] = waiting
  poll_one (some x) (interrupted ∷ calls) = poll_one (some x) calls
  poll_one (some x) (broken ∷ calls) = failed
  poll_one (some x) (ready bs ∷ calls) =
      if count_set bs == 0
      then selected 0 []
      else if count_set bs == 1
      then selected 1 []
      else failed
