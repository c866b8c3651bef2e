-- ===== src/Tree/Counting.antt =====
-- How the number of nodes under a parent changes when one path is filled or emptied.
use pyxis.Prelude.{
  ℕ, suc, Bytes, true, [], ◌∷◌, ◌≡◌, ◌≢◌, arith, beq, beq_iff, if◌then◌else◌, ◌++◌, ◌≤◌,
}
use pyxis.Paths.{slash}
use pyxis.Paths.Split.{join, is_child}
use pyxis.Tree.{Slots, present, children_of}

cons-ne : (c : ℕ) (s : Bytes) → s ≢ c ∷ s
cons-ne c [] h = cc
cons-ne c (x ∷ s) h = cons-ne c s (ground arith)

module _ (proc_root : Bytes) (at at' : Slots) (path : Bytes) where
  -- One more path is filled: the count grows where the path splits so.
  pub children_of-fill :
      ((k : Bytes) → present proc_root at' k ≡ (if beq path k then 1 else present proc_root at k))
      → present proc_root at path ≡ 0
      → (q c : Bytes)
      → children_of proc_root at' q c ≡ (
          if is_child path q c
          then suc (children_of proc_root at q c)
          else children_of proc_root at q c)
  unfolding children_of is_child join
  children_of-fill h e q c = ground (
    arith,
    cons-ne slash c,
    h (slash ∷ c),
    h (q ++ slash ∷ c),
    h (slash ∷ slash ∷ c),
    beq_iff path (slash ∷ c),
    beq_iff path (q ++ slash ∷ c),
    beq_iff path (slash ∷ slash ∷ c),
  )

-- A node is counted under the parent and the name that its path splits into.
pub children_of-pos :
    (proc_root : Bytes) (at : Slots) (p q c : Bytes)
    → is_child p q c ≡ true
    → present proc_root at p ≡ 1
    → 1 ≤ children_of proc_root at q c
unfolding children_of is_child
children_of-pos proc_root at p q c h e =
    ground (arith, beq_iff p (join q c), beq_iff p (slash ∷ slash ∷ c))
