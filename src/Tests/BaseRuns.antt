-- ===== src/Tests/BaseRuns.antt =====
-- Runs of the selector and the timer.
use pyxis.Prelude.{
  ℕ, ◌+◌, ◌*◌, ◌-◌, ◌<◌, ◌≤◌, true, false, List, [], ◌∷◌, Option, none, some, ◌≡◌, refl, arith,
}
use mathlib.Core.List.Permᴰ
use pyxis.Maps.{find, assign}
use pyxis.Maps.Keys.{nat_key}
use pyxis.Selector.{ready, selected, wait, interrupted}
use pyxis.Selector.Chosen.{registrations, is_ready, wait_lem}
use pyxis.Timer.{new_timer, at_time, is_armed, at_time_lem, in_milliseconds, after}
use pyxis.Double.{nearest, Double}

-- A descriptor that is its own selectable.
abbrev own : ℕ → ℕ
own fd = fd

-- 3, NULL and 4 are registered, and 4 is readable.
abbrev three_four : List (Option ℕ)
three_four = some 4 ∷ none ∷ some 3 ∷ []

abbrev in_order : List (Option ℕ) → List (Option ℕ)
in_order l = l

wait_lem_example :
    (y : ℕ) × (wait own in_order
        (interrupted ∷ ready (false ∷ true ∷ []) ∷ [])
        (registrations own three_four)
      ≡ selected 1 (some y ∷ []))
    × (find y (registrations own three_four).selectables ≡ some y)
    × (is_ready y (registrations own three_four).polls (false ∷ true ∷ []) ≡ true)
unfolding registrations
wait_lem_example =
    wait_lem own in_order (λ l. Permᴰ.refl l) three_four 1 (false ∷ true ∷ []) [] refl (λ h. cc)

four_is_chosen :
    wait own in_order (interrupted ∷ ready (false ∷ true ∷ []) ∷ []) (registrations own three_four)
    ≡ selected 1 (some 4 ∷ [])
unfolding wait registrations find assign
four_is_chosen = refl

-- timeDifference in double.
abbrev seconds : ℕ → Double
seconds d = nearest d 1000000

at_time_lem_example :
    (let ms = in_milliseconds (seconds (5000000 - 1000)) in
      (5000000 < 1000 → at_time seconds 1000 5000000 new_timer ≡ new_timer)
      × (1000 ≤ 5000000
          → 5000000 < 1000 + 1000
          → is_armed (at_time seconds 1000 5000000 new_timer) ≡ false)
      × (1000 + 2000 ≤ 5000000
          → (at_time seconds 1000 5000000 new_timer ≡ after ms new_timer)
            × (is_armed (at_time seconds 1000 5000000 new_timer) ≡ true)
            × (1000 + ms * 1000 ≤ 5000000)
            × (5000000 < 1000 + ms * 1000 + 2000)))
at_time_lem_example = at_time_lem seconds 1000 5000000 new_timer (λ d h. refl) (omega arith)

-- A timer that runs stops where it is set to a time that is half a millisecond ahead.
stops : is_armed (at_time seconds 1000 1500 (at_time seconds 1000 5000000 new_timer)) ≡ false
unfolding at_time nearest
stops = refl

-- 1.001 s come out a millisecond short in double.
loses : in_milliseconds (seconds 1001000) ≡ 1000
unfolding in_milliseconds nearest
loses = refl
