-- ===== src/Maps/Ascending.antt =====
-- Maps with numbers as keys stay in strictly ascending order.
use pyxis.Prelude.{ℕ, ◌≤◌, Bool, true, ◌&&◌, List, [], ◌∷◌, none, ◌≡◌, refl, arith, ltb}
use pyxis.Maps.{find, assign, erase}
use pyxis.Maps.Keys.{nat_key}

module _ {ℓ} {V : Type ℓ} where
  -- Every key is greater.
  unfoldable pub above : ℕ → List (ℕ × V) → Bool
  above k [] = true
  above k ((j, v) ∷ m) = ltb k j && above k m

  unfoldable pub ascending : List (ℕ × V) → Bool
  unfolding above
  ascending [] = true
  ascending ((j, v) ∷ m) = above j m && ascending m

  above-assign :
      (k j : ℕ) (v : V) (m : List (ℕ × V)) → above k (assign j v m) ≡ (ltb k j && above k m)
  unfolding above assign
  above-assign k j v [] = ground arith
  above-assign k j v ((i, w) ∷ m) = ground (arith, above-assign k j v m)

  above-erase : (k j : ℕ) (m : List (ℕ × V)) → above k m ≡ true → above k (erase j m) ≡ true
  unfolding above erase
  above-erase k j [] h = refl
  above-erase k j ((i, w) ∷ m) h = ground (arith, above-erase k j m)

  above_trans : (k j : ℕ) (m : List (ℕ × V)) → k ≤ j → above j m ≡ true → above k m ≡ true
  unfolding above
  above_trans k j [] h w = refl
  above_trans k j ((i, w) ∷ m) h g = ground (arith, above_trans k j m h)

  pub ascending-assign :
      (j : ℕ) (v : V) (m : List (ℕ × V)) → ascending m ≡ true → ascending (assign j v m) ≡ true
  unfolding ascending above assign
  ascending-assign j v [] h = refl
  ascending-assign j v ((i, w) ∷ m) h =
      ground (arith, ascending-assign j v m, above-assign i j v m, above_trans j i m)

  pub ascending-erase :
      (j : ℕ) (m : List (ℕ × V)) → ascending m ≡ true → ascending (erase j m) ≡ true
  unfolding ascending erase
  ascending-erase j [] h = refl
  ascending-erase j ((i, w) ∷ m) h = ground (arith, ascending-erase j m, above-erase i j m)

  pub find-above : (k j : ℕ) (m : List (ℕ × V)) → j ≤ k → above k m ≡ true → find j m ≡ none
  unfolding above find
  find-above k j [] h w = refl
  find-above k j ((i, v) ∷ m) h w = ground (arith, find-above k j m h)
