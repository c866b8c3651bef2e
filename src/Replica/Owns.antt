-- ===== src/Replica/Owns.antt =====
-- Which session owns a path, over the changes of its nodes.
use pyxis.Prelude.{
  ℕ, Bytes, true, List, Option, some, ◌≡◌, ◌≢◌, subst, arith, beq_iff, Bool-cases, inl, inr, ==_iff,
  ◌==◌,
}
use pyxis.Maps.{member, set_insert, set_erase, member-set_insert, member-set_erase}
use pyxis.Maps.Keys.{nat_key, bytes_key}
use pyxis.Replica.{Owner, set_at, add_owner}

-- A session owns a path.
abbrev pub Owns : (ℕ → Option Owner) → ℕ → Bytes → Type 0
Owns f i p = (nodes : List Bytes) × (f i ≡ some (i, nodes)) × (member p nodes ≡ true)

module _ (f : ℕ → Option Owner) (i : ℕ) (nodes : List Bytes) (here : f i ≡ some (i, nodes)) where
  -- A session that owns other nodes.
  Owns-set_at :
      (more : List Bytes) (j : ℕ) (p : Bytes)
      → (member p nodes ≡ true → member p more ≡ true)
      → Owns f j p
      → Owns (set_at i (some (i, more)) f) j p
  unfolding set_at
  Owns-set_at more j p h (ns, e, m) = elim (Bool-cases (i == j)) [
    | inl b ↦
        let same : i ≡ j = (==_iff i j).0 b in
        let had : ns ≡ nodes =
          ground (arith, e, here, subst (λ k. f k ≡ some (i, nodes)) same here) in
        (more, ground (arith, b, same), h (subst (λ l. member p l ≡ true) had m))
    | inr b ↦ (ns, ground (arith, b, e), m)
  ]

  pub Owns-bind :
      (path p : Bytes) (j : ℕ)
      → Owns f j p
      → Owns (set_at i (some (i, set_insert path nodes)) f) j p
  Owns-bind path p j o =
      Owns-set_at (set_insert path nodes) j p
        (λ m. ground (arith, member-set_insert path p nodes, m)) o

  pub Owns-bound : (path : Bytes) → Owns (set_at i (some (i, set_insert path nodes)) f) i path
  unfolding set_at
  Owns-bound path = (
    set_insert path nodes,
    ground (arith, ==_iff i i),
    ground (arith, member-set_insert path path nodes, beq_iff path path),
  )

  pub Owns-unbind :
      (path p : Bytes) (j : ℕ)
      → path ≢ p
      → Owns f j p
      → Owns (set_at i (some (i, set_erase path nodes)) f) j p
  Owns-unbind path p j n o =
      Owns-set_at (set_erase path nodes) j p
        (λ m. ground (arith, member-set_erase path p nodes, m, n, beq_iff path p)) o

pub Owns-add_owner :
    (f : ℕ → Option Owner) (sid j : ℕ) (p : Bytes) → Owns f j p → Owns (add_owner sid f) j p
unfolding add_owner set_at
Owns-add_owner f sid j p (ns, e, m) = (ns, ground (arith, e, ==_iff sid j), m)
