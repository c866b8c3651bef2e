-- ===== src/Tree/Grow.antt =====
-- The change of a tree that Create makes.
use pyxis.Prelude.{
  suc, Bytes, true, false, [], ◌≡◌, ◌≢◌, inl, inr, sym, ap, ◌∙◌, subst, arith, beq, beq_iff,
  beq_refl, if◌then◌else◌, Bool-cases,
}
use pyxis.Common.Status
use pyxis.Common.Status.{is_ok}
use pyxis.Paths.{root, split_path, Parts}
use pyxis.Paths.Split.{join, IsName, split_ok, split_path-join}
use pyxis.Node.{Node, add_child, is_ephemeral}
use pyxis.Node.Children.{count, count-add_child}
use pyxis.Tree.{
  Slots, vacant, unreadable, holds, taken, present, children_of, HasParent, IsTree, Slot-cases,
}
use pyxis.Tree.Own.{root-unsplit, nil-unsplit, held-nonempty, children_of-own}

-- The slots behind Create: a new node, and its name in the parent.
abbrev pub IsGrown : Slots → Slots → Bytes → Node → Node → Type 0
IsGrown at at' path parent node =
    (k : Bytes)
    → at' k ≡ (
        if beq (split_path path).parent k
        then holds (add_child parent (split_path path).son)
        else if beq path k
        then holds node
        else at k)

module _ (proc_root : Bytes) (at at' : Slots) (path : Bytes) (parent node : Node)
    (tree : IsTree proc_root at) (outside : beq proc_root path ≡ false)
    (top : (split_path proc_root).parent ≡ root) (splits : (split_path path).status ≡ Status.ok)
    (free : at path ≡ vacant) (under : at (split_path path).parent ≡ holds parent)
    (persists : is_ephemeral parent.flags ≡ false) (childless : node.children ≡ [])
    (grown : IsGrown at at' path parent node) where
  -- the path is not the parent's
  apart : beq (split_path path).parent path ≡ false
  apart = elim (Bool-cases (beq (split_path path).parent path)) [
    | inr e ↦ e
    | inl e ↦ let same : (split_path path).parent ≡ path = (beq_iff _ _).0 e in cc (ap at same)
  ]

  present-grown :
      (k : Bytes) → present proc_root at' k ≡ (if beq path k then 1 else present proc_root at k)
  unfolding present
  present-grown k = ground (
    arith,
    grown k,
    beq_iff path k,
    beq_iff (split_path path).parent k,
    beq_iff proc_root path,
    beq_iff proc_root k,
    apart,
  )

  below_root : path ≢ root
  below_root e = root-unsplit (ap (λ p. (split_path p).status) (sym e) ∙ splits)

  readable-grown : (p : Bytes) → at' p ≢ unreadable
  readable-grown p = ground (arith, grown p, tree.readable p)

  splits-grown :
      (p : Bytes) (n : Node) → at' p ≡ holds n → p ≢ root → is_ok (split_path p).status ≡ true
  splits-grown p n h r = ground (
    arith,
    grown p,
    tree.splits p n,
    tree.splits p parent,
    beq_iff path p,
    beq_iff (split_path path).parent p,
    ap is_ok splits,
  )

  -- a node that is not ephemeral stays one
  kept :
      (q : Bytes) (m : Node)
      → at q ≡ holds m
      → is_ephemeral m.flags ≡ false
      → (m' : Node) × (at' q ≡ holds m') × (is_ephemeral m'.flags ≡ false)
  unfolding add_child
  kept q m h e = elim (Bool-cases (beq (split_path path).parent q)) [
    | inl t ↦ (add_child parent (split_path path).son, ground (arith, grown q), persists)
    | inr t ↦ (m, ground (arith, grown q, beq_iff path q), e)
  ]

  before :
      (p : Bytes) (n : Node) → beq path p ≡ false → at' p ≡ holds n → (m : Node) × (at p ≡ holds m)
  before p n t h = elim (Bool-cases (beq (split_path path).parent p)) [
    | inl e ↦ (parent, subst (λ q. at q ≡ holds parent) ((beq_iff _ p).0 e) under)
    | inr e ↦ (n, ground (arith, grown p))
  ]

  HasParent-grown : (p : Bytes) (n : Node) → at' p ≡ holds n → p ≢ root → HasParent proc_root at' p
  HasParent-grown p n h r = elim (Bool-cases (beq path p)) [
    | inl t ↦ subst (HasParent proc_root at') ((beq_iff path p).0 t) (kept _ parent under persists)
    | inr t ↦
        let (m, e) = before p n t h in
        let (up, at_up, lasting) = tree.has_parent p m e r in kept _ up at_up lasting
  ]

  nonempty : path ≢ []
  nonempty e = cc nil-unsplit

  -- no node stands under a path that holds none
  vacant-unlisted : (p c : Bytes) → split_path p ≡ split_ok path c → taken (at p) ≡ 0
  vacant-unlisted p c e = elim (Slot-cases (at p)) [
    | inl h ↦ h
    | inr (n, h) ↦
        let unlike : p ≢ root = λ (r : p ≡ root).
          root-unsplit (ap (λ q. (split_path q).status) (sym r) ∙ ap (λ (x : Parts). x.status) e) in
        let (m, at_m, _) = tree.has_parent p n h unlike in cc (ap (λ (x : Parts). at x.parent) e)
  ]

  proc-elsewhere : (c : Bytes) → IsName c → beq proc_root (join path c) ≡ false
  proc-elsewhere c n = elim (Bool-cases (beq proc_root (join path c))) [
    | inr e ↦ e
    | inl e ↦
        let same : proc_root ≡ join path c = (beq_iff _ _).0 e in
        let here : (split_path proc_root).parent ≡ path =
          ap (λ p. (split_path p).parent) same
          ∙ ap (λ (x : Parts). x.parent) (split_path-join path c n nonempty) in
        absurd (below_root (sym here ∙ top))
  ]

  unlisted : (c : Bytes) → IsName c → children_of proc_root at path c ≡ 0
  unfolding children_of present
  unlisted c n = ground (
    arith,
    vacant-unlisted (join path c) c (split_path-join path c n nonempty),
    beq_iff path root,
    below_root,
    proc-elsewhere c n,
  )

  filled :
      (q c : Bytes)
      → IsName c
      → q ≢ []
      → children_of proc_root at' q c ≡ (
          if (if beq (split_path path).parent q then beq (split_path path).son c else false)
          then suc (children_of proc_root at q c)
          else children_of proc_root at q c)
  filled q c name n =
      children_of-own proc_root at at' path q c present-grown (unfold present in rw (outside, free))
        splits name n

  counted-path : (c : Bytes) → IsName c → count c node.children ≡ children_of proc_root at' path c
  unfolding count
  counted-path c name =
      rw childless (ground (arith, filled path c name nonempty, apart, unlisted c name))

  node-path : at' path ≡ holds node
  node-path = ground (arith, grown path, apart, beq_refl path)

  counted-grown :
      (q c : Bytes) (n : Node)
      → IsName c
      → at' q ≡ holds n
      → count c n.children ≡ children_of proc_root at' q c
  counted-grown q c n name h = elim (Bool-cases (beq path q)) [
    | inl t ↦
        let same : path ≡ q = (beq_iff path q).0 t in
        let own : holds node ≡ holds n = sym node-path ∙ ap at' same ∙ h in
        ground (arith, own, counted-path c name, ap (λ p. children_of proc_root at' p c) same)
    | inr t ↦
        let (m, e) = before q n t h in
        ground (
          arith,
          grown q,
          filled q c name (held-nonempty proc_root at q m tree e),
          tree.counted q c m name e,
          count-add_child c (split_path path).son parent,
          beq_iff (split_path path).parent q,
        )
  ]

  pub grow-IsTree : IsTree proc_root at'
  grow-IsTree = record {
    readable = readable-grown;
    splits = splits-grown;
    has_parent = HasParent-grown;
    counted = counted-grown;
  }
