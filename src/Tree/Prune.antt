-- ===== src/Tree/Prune.antt =====
-- The change of a tree that Delete makes.
use pyxis.Prelude.{
  suc, Bytes, true, false, [], ◌≡◌, ◌≢◌, inl, inr, sym, ap, ◌∙◌, subst, arith, beq, beq_iff,
  beq_refl, if◌then◌else◌, Bool-cases, some, ◌≤◌,
}
use pyxis.Common.Status
use pyxis.Common.Status.{is_ok}
use pyxis.Paths.{root, split_path}
use pyxis.Paths.Split.{split_path-ok, IsName, is_child, split_path_inv}
use pyxis.Node.{Node, is_ephemeral, remove_child, swap_remove}
use pyxis.Node.Children.{count, count-remove_child}
use pyxis.Tree.{Slots, vacant, unreadable, holds, present, children_of, HasParent, IsTree}
use pyxis.Tree.Own.{is_child-own, held-nonempty, children_of-own}
use pyxis.Tree.Counting.{children_of-pos}

-- The slots behind Delete: the node gone, and its name gone from the parent.
abbrev pub IsPruned : Slots → Slots → Bytes → Node → Type 0
IsPruned at at' path parent' =
    (k : Bytes)
    → at' k ≡ (
        if beq (split_path path).parent k
        then holds parent'
        else if beq path k
        then vacant
        else at k)

module _ (proc_root : Bytes) (at at' : Slots) (path : Bytes) (parent parent' node : Node)
    (tree : IsTree proc_root at) (outside : beq proc_root path ≡ false)
    (splits : (split_path path).status ≡ Status.ok) (held : at path ≡ holds node)
    (childless : node.children ≡ []) (under : at (split_path path).parent ≡ holds parent)
    (removed : remove_child parent (split_path path).son ≡ some parent')
    (pruned : IsPruned at at' path parent') where
  removed-flags : parent'.flags ≡ parent.flags
  unfolding remove_child
  removed-flags = ground arith

  removed-count :
      (c : Bytes)
      → count c parent.children ≡ (
          if beq (split_path path).son c
          then suc (count c parent'.children)
          else count c parent'.children)
  removed-count c = count-remove_child c (split_path path).son parent parent' removed

  apart : beq (split_path path).parent path ≡ false
  unfolding remove_child swap_remove
  apart = elim (Bool-cases (beq (split_path path).parent path)) [
    | inr e ↦ e
    | inl e ↦
        let same : (split_path path).parent ≡ path = (beq_iff _ _).0 e in
        ground (arith, sym under ∙ ap at same ∙ held)
  ]

  present-pruned :
      (k : Bytes) → present proc_root at k ≡ (if beq path k then 1 else present proc_root at' k)
  unfolding present
  present-pruned k = ground (
    arith,
    pruned k,
    beq_iff path k,
    beq_iff (split_path path).parent k,
    beq_iff proc_root path,
    beq_iff proc_root k,
    apart,
  )

  present-path : present proc_root at' path ≡ 0
  unfolding present
  present-path = ground (arith, pruned path, beq_refl path, apart)

  readable-pruned : (p : Bytes) → at' p ≢ unreadable
  readable-pruned p = ground (arith, pruned p, tree.readable p)

  before : (p : Bytes) (n : Node) → at' p ≡ holds n → (m : Node) × (at p ≡ holds m)
  before p n h = elim (Bool-cases (beq (split_path path).parent p)) [
    | inl e ↦ (parent, subst (λ q. at q ≡ holds parent) ((beq_iff _ p).0 e) under)
    | inr e ↦ (n, ground (arith, pruned p))
  ]

  splits-pruned :
      (p : Bytes) (n : Node) → at' p ≡ holds n → p ≢ root → is_ok (split_path p).status ≡ true
  splits-pruned p n h r = let (m, e) = before p n h in tree.splits p m e r

  kept :
      (q : Bytes) (m : Node)
      → beq path q ≡ false
      → at q ≡ holds m
      → is_ephemeral m.flags ≡ false
      → (m' : Node) × (at' q ≡ holds m') × (is_ephemeral m'.flags ≡ false)
  kept q m t h e = elim (Bool-cases (beq (split_path path).parent q)) [
    | inl u ↦
        let same : (split_path path).parent ≡ q = (beq_iff _ q).0 u in
        let own : holds parent ≡ holds m = sym under ∙ ap at same ∙ h in
        (parent', ground (arith, pruned q), ground (arith, removed-flags, own))
    | inr u ↦ (m, ground (arith, pruned q), e)
  ]

  present-held : (p : Bytes) (n : Node) → at p ≡ holds n → present proc_root at p ≡ 1
  unfolding present
  present-held p n h = rw h (ground arith)

  emptied :
      (q c : Bytes)
      → IsName c
      → q ≢ []
      → children_of proc_root at q c ≡ (
          if (if beq (split_path path).parent q then beq (split_path path).son c else false)
          then suc (children_of proc_root at' q c)
          else children_of proc_root at' q c)
  emptied q c name n =
      children_of-own proc_root at' at path q c present-pruned present-path splits name n

  -- no node stands under the path, since its node lists none
  orphan : (p : Bytes) (n : Node) → at p ≡ holds n → p ≢ root → (split_path p).parent ≢ path
  unfolding count
  orphan p n h r e =
      let good : (split_path p).status ≡ Status.ok = split_path-ok p (tree.splits p n h r) in
      let (_, _, _, name) = split_path_inv p good in
      let mine : is_child p path (split_path p).son ≡ true =
        is_child-own p path (split_path p).son good name
          (held-nonempty proc_root at path node tree held)
        ∙ ground (arith, beq_iff (split_path p).parent path, beq_refl (split_path p).son) in
      let listed : 1 ≤ children_of proc_root at path (split_path p).son =
        children_of-pos proc_root at p path (split_path p).son mine (present-held p n h) in
      ground (arith, listed, tree.counted path (split_path p).son node name held, childless)

  HasParent-pruned : (p : Bytes) (n : Node) → at' p ≡ holds n → p ≢ root → HasParent proc_root at' p
  HasParent-pruned p n h r =
      let (m, e) = before p n h in
      let (up, at_up, lasting) = tree.has_parent p m e r in
      kept _ up (ground (arith, beq_iff path (split_path p).parent, orphan p m e r)) at_up lasting

  counted-pruned :
      (q c : Bytes) (n : Node)
      → IsName c
      → at' q ≡ holds n
      → count c n.children ≡ children_of proc_root at' q c
  counted-pruned q c n name h =
      let (m, e) = before q n h in
      ground (
        arith,
        pruned q,
        emptied q c name (held-nonempty proc_root at q m tree e),
        tree.counted q c m name e,
        removed-count c,
        beq_iff (split_path path).parent q,
      )

  pub prune-IsTree : IsTree proc_root at'
  prune-IsTree = record {
    readable = readable-pruned;
    splits = splits-pruned;
    has_parent = HasParent-pruned;
    counted = counted-pruned;
  }
