-- ===== src/Maps.antt =====
-- std::map, std::multimap and std::set, as lists in the order of their keys.
pub mod Keys
pub mod Ascending
use pyxis.Prelude.{
  ℕ, Bytes, Bool, true, false, ◌&&◌, ◌||◌, List, [], ◌∷◌, Option, none, some, ◌≡◌, refl, arith,
  if◌then◌else◌,
}
use pyxis.Maps.Keys.{Key}

module _ {ℓ κ} {K : Type ℓ} {V : Type κ} ⦃o : Key K⦄ where
  -- find.
  unfoldable pub find : K → List (K × V) → Option V
  find k [] = none
  find k ((j, v) ∷ m) = if o.eq j k then some v else find k m

  -- m[k] = v.
  unfoldable pub assign : K → V → List (K × V) → List (K × V)
  assign k v [] = (k, v) ∷ []
  assign k v ((j, w) ∷ m) =
      let rest = assign k v m in
      if o.eq j k then (k, v) ∷ m else if o.lt k j then (k, v) ∷ (j, w) ∷ m else (j, w) ∷ rest

  -- map::insert, which keeps a value that is there.
  unfoldable pub insert_new : K → V → List (K × V) → List (K × V)
  unfolding find assign
  insert_new k v m = elim (find k m) [ some w ↦ m | none ↦ assign k v m ]

  -- erase by key.
  unfoldable pub erase : K → List (K × V) → List (K × V)
  erase k [] = []
  erase k ((j, w) ∷ m) = let rest = erase k m in if o.eq j k then rest else (j, w) ∷ rest

  -- multimap::insert, behind the entries of the same key.
  unfoldable pub insert_multi : K → V → List (K × V) → List (K × V)
  insert_multi k v [] = (k, v) ∷ []
  insert_multi k v ((j, w) ∷ m) =
      if o.lt k j then (k, v) ∷ (j, w) ∷ m else (j, w) ∷ insert_multi k v m

  pub find-assign :
      (k j : K) (v : V) (m : List (K × V))
      → find j (assign k v m) ≡ (if o.eq k j then some v else find j m)
  unfolding find assign
  find-assign k j v [] = refl
  find-assign k j v ((i, w) ∷ m) =
      ground (arith, o.eq_iff k j, o.eq_iff i k, o.eq_iff i j, find-assign k j v m)

  pub find-erase :
      (k j : K) (m : List (K × V)) → find j (erase k m) ≡ (if o.eq k j then none else find j m)
  unfolding find erase
  find-erase k j [] = ground arith
  find-erase k j ((i, w) ∷ m) =
      ground (arith, o.eq_iff k j, o.eq_iff i k, o.eq_iff i j, find-erase k j m)

module _ {ℓ} {K : Type ℓ} ⦃o : Key K⦄ where
  -- set::insert.
  unfoldable pub set_insert : K → List K → List K
  set_insert k [] = k ∷ []
  set_insert k (j ∷ m) =
      let rest = set_insert k m in
      if o.eq j k then j ∷ m else if o.lt k j then k ∷ j ∷ m else j ∷ rest

  -- set::erase.
  unfoldable pub set_erase : K → List K → List K
  set_erase k [] = []
  set_erase k (j ∷ m) = let rest = set_erase k m in if o.eq j k then rest else j ∷ rest

  -- set::count.
  unfoldable pub member : K → List K → Bool
  member k [] = false
  member k (j ∷ m) = o.eq j k || member k m

  pub member-set_insert :
      (k j : K) (m : List K) → member j (set_insert k m) ≡ (o.eq k j || member j m)
  unfolding member set_insert
  member-set_insert k j [] = ground arith
  member-set_insert k j (i ∷ m) =
      ground (arith, o.eq_iff k j, o.eq_iff i k, o.eq_iff i j, member-set_insert k j m)

  pub member-set_erase :
      (k j : K) (m : List K) → member j (set_erase k m) ≡ (if o.eq k j then false else member j m)
  unfolding member set_erase
  member-set_erase k j [] = ground arith
  member-set_erase k j (i ∷ m) =
      ground (arith, o.eq_iff k j, o.eq_iff i k, o.eq_iff i j, member-set_erase k j m)
