-- ===== src/ProcDb/Routes.antt =====
-- The node that serves a path is the longest one registered above it.
use pyxis.Prelude.{
  ◌≤◌, Bytes, Bool, true, false, ◌&&◌, List, [], ◌∷◌, ◌++◌, none, some, ◌≡◌, ◌↔◌, refl, ap, arith,
  length, beq, beq_iff, beq_refl, Bool-cases, Option-cases, inl, inr, ◌⊎◌,
}
use pyxis.Maps.{find}
use pyxis.Maps.Keys.{bytes_key, bytes_lt}
use pyxis.ProcDb.{route}

-- Every key of the map is greater.
unfoldable pub above {ℓ} : {A : Type ℓ} → Bytes → List (Bytes × A) → Bool
above k [] = true
above k ((j, a) ∷ m) = bytes_lt k j && above k m

-- The keys of the map ascend.
unfoldable pub ordered {ℓ} : {A : Type ℓ} → List (Bytes × A) → Bool
unfolding above
ordered [] = true
ordered ((k, a) ∷ m) = above k m && ordered m

-- Of two prefixes of one path the smaller is the shorter.
prefix-shorter :
    (path j k r q : Bytes)
    → path ≡ j ++ r
    → path ≡ k ++ q
    → bytes_lt j k ≡ true
    → length j ≤ length k
unfolding bytes_lt
prefix-shorter path [] k r q h w l = ground arith
prefix-shorter path (x ∷ j) [] r q h w l = absurd (ground arith)
prefix-shorter [] (x ∷ j) (y ∷ k) r q h w l = absurd (ground arith)
prefix-shorter (z ∷ path) (x ∷ j) (y ∷ k) r q h w l = ground (arith, prefix-shorter path j k r q)

bytes_lt_irrefl : (s : Bytes) → bytes_lt s s ≡ false
unfolding bytes_lt
bytes_lt_irrefl [] = refl
bytes_lt_irrefl (x ∷ s) = ground (arith, bytes_lt_irrefl s)

above-find {ℓ} :
    {A : Type ℓ} (i k : Bytes) (a : A) (m : List (Bytes × A))
    → above i m ≡ true
    → find k m ≡ some a
    → bytes_lt i k ≡ true
unfolding above find
above-find i k a [] h w = absurd (ground arith)
above-find i k a ((j, b) ∷ m) h w =
    ground (arith, above-find i k a m, beq_iff j k, ap (λ (s : Bytes). bytes_lt i s))

above-ne {ℓ} :
    {A : Type ℓ} (i k : Bytes) (a : A) (m : List (Bytes × A))
    → above i m ≡ true
    → find k m ≡ some a
    → beq i k ≡ false
above-ne i k a m h w = ground (
  arith,
  above-find i k a m h w,
  beq_iff i k,
  bytes_lt_irrefl k,
  ap (λ (s : Bytes). bytes_lt s k),
)

module _ (starts_with : Bytes → Bytes → Bool)
    (starts_with_iff : (s p : Bytes)
      → (starts_with s p ≡ true) ↔ ((rest : Bytes) × (s ≡ p ++ rest)))
    (path : Bytes) where
  both-shorter :
      (i k : Bytes)
      → starts_with path i ≡ true
      → starts_with path k ≡ true
      → bytes_lt i k ≡ true
      → length i ≤ length k
  both-shorter i k h w l =
      let (r, e) = (starts_with_iff path i).0 h in
      let (q, f) = (starts_with_iff path k).0 w in prefix-shorter path i k r q e f l

  module _ {ℓ} {A : Type ℓ} where
    -- Where no entry is found, no registered path is a prefix.
    route-none :
        (m : List (Bytes × A))
        → route starts_with path m ≡ none
        → (j : Bytes) (b : A) → find j m ≡ some b
        → starts_with path j ≡ false
    unfolding route find
    route-none [] h j b w = absurd (ground arith)
    route-none ((i, c) ∷ m) h j b w = elim (Option-cases (route starts_with path m)) [
      | inr (e, u) ↦ absurd (ground arith)
      | inl u ↦ ground (arith, route-none m u j b, beq_iff i j, ap (starts_with path))
    ]

    -- In a map whose keys ascend, the entry that serves a path is one of the map, its key is a
    -- prefix of the path, and no key of the map that is a prefix of the path is longer; no entry is
    -- found only where no key is a prefix.
    pub route_lem :
        (m : List (Bytes × A))
        → ordered m ≡ true
        → ((route starts_with path m ≡ none)
            × ((j : Bytes) (b : A) → find j m ≡ some b → starts_with path j ≡ false))
          ⊎ ((k : Bytes) × (a : A) × (route starts_with path m ≡ some (k, a))
              × (find k m ≡ some a)
              × (starts_with path k ≡ true)
              × ((j : Bytes) (b : A)
                  → find j m ≡ some b
                  → starts_with path j ≡ true
                  → length j ≤ length k))
    unfolding ordered route find
    route_lem [] o = inl (refl, λ j b h. absurd (ground arith))
    route_lem ((i, c) ∷ m) o = elim (route_lem m (ground arith)) [
      | inl (u, f) ↦ elim (Bool-cases (starts_with path i)) [
        | inl p ↦ inr (
          i,
          c,
          ground arith,
          ground (arith, beq_refl i),
          p,
          λ j b h q. ground (arith, f j b, beq_iff i j, ap (λ (s : Bytes). length s)),
        )
        | inr p ↦
            inl (ground arith, λ j b h. ground (arith, f j b, beq_iff i j, ap (starts_with path)))
      ]
      | inr (k, a, u, w, p, g) ↦ inr (
        k,
        a,
        ground arith,
        ground (arith, above-ne i k a m),
        p,
        λ j b h q. ground (
          arith,
          g j b,
          beq_iff i j,
          both-shorter i k,
          above-find i k a m,
          ap (starts_with path),
          ap (λ (s : Bytes). length s),
        ),
      )
    ]
