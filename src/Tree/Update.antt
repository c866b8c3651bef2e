-- ===== src/Tree/Update.antt =====
-- The change of a tree that Write makes.
use pyxis.Prelude.{
  Bytes, false, ◌∷◌, ◌≡◌, inl, inr, refl, sym, ap, ◌∙◌, subst, arith, beq, beq_iff, if◌then◌else◌,
  Bool-cases,
}
use pyxis.Paths.{slash}
use pyxis.Paths.Split.{join}
use pyxis.Node.{Node, is_ephemeral}
use pyxis.Node.Children.{count}
use pyxis.Tree.{Slots, holds, present, children_of, IsTree}

-- The slots behind Write: one node is another, with the same children and flags.
abbrev pub IsUpdated : Slots → Slots → Bytes → Node → Type 0
IsUpdated at at' path node' = (k : Bytes) → at' k ≡ (if beq path k then holds node' else at k)

module _ (proc_root : Bytes) (at at' : Slots) (path : Bytes) (node node' : Node)
    (tree : IsTree proc_root at) (held : at path ≡ holds node)
    (children : node'.children ≡ node.children) (flags : node'.flags ≡ node.flags)
    (updated : IsUpdated at at' path node') where
  present-updated : (k : Bytes) → present proc_root at' k ≡ present proc_root at k
  unfolding present
  present-updated k = ground (arith, updated k, beq_iff path k, held)

  children_of-updated : (q c : Bytes) → children_of proc_root at' q c ≡ children_of proc_root at q c
  unfolding children_of
  children_of-updated q c =
      ground (arith, present-updated (join q c), present-updated (slash ∷ slash ∷ c))

  -- what stood at a path before, with the same children and flags
  before :
      (p : Bytes) (n : Node)
      → at' p ≡ holds n
      → (m : Node) × (at p ≡ holds m) × (m.children ≡ n.children) × (m.flags ≡ n.flags)
  before p n h = elim (Bool-cases (beq path p)) [
    | inl e ↦
        let same : path ≡ p = (beq_iff path p).0 e in
        (
          node,
          subst (λ q. at q ≡ holds node) same held,
          ground (arith, updated p, children),
          ground (arith, updated p, flags),
        )
    | inr e ↦ (n, ground (arith, updated p), refl, refl)
  ]

  kept :
      (q : Bytes) (m : Node)
      → at q ≡ holds m
      → is_ephemeral m.flags ≡ false
      → (m' : Node) × (at' q ≡ holds m') × (is_ephemeral m'.flags ≡ false)
  kept q m h e = elim (Bool-cases (beq path q)) [
    | inl u ↦
        let same : path ≡ q = (beq_iff path q).0 u in
        let own : holds node ≡ holds m = sym held ∙ ap at same ∙ h in
        (node', ground (arith, updated q), ground (arith, flags, own))
    | inr u ↦ (m, ground (arith, updated q), e)
  ]

  pub update-IsTree : IsTree proc_root at'
  update-IsTree = record {
    readable = λ p. ground (arith, updated p, tree.readable p);
    splits = λ p n h r. let (m, e, _, _) = before p n h in tree.splits p m e r;
    has_parent = λ p n h r.
        let (m, e, _, _) = before p n h in
        let (up, at_up, lasting) = tree.has_parent p m e r in kept _ up at_up lasting;
    counted = λ q c n name h.
        let (m, e, same, _) = before q n h in
        ap (count c) (sym same) ∙ tree.counted q c m name e ∙ sym (children_of-updated q c);
  }
