-- ===== src/Tree/Own.antt =====
-- Which parent and name a path belongs to.
use pyxis.Prelude.{
  suc, Bytes, true, false, [], ◌≡◌, ◌≢◌, refl, ap, ◌∙◌, arith, beq, beq_iff, beq_refl,
  if◌then◌else◌, rfind, ◌≤◌,
}
use pyxis.Common.Status
use pyxis.Common.Status.{is_ok}
use pyxis.Paths.{root, split_path}
use pyxis.Paths.Split.{IsName, is_child, is_child_iff, split_path_inv}
use pyxis.Node.{Node}
use pyxis.Node.Children.{count}
use pyxis.Tree.{Slots, holds, present, children_of, IsTree}
use pyxis.Tree.Counting.{children_of-fill, children_of-pos}

pub root-unsplit : (split_path root).status ≢ Status.ok
unfolding split_path rfind
root-unsplit h = cc

pub nil-unsplit : is_ok (split_path []).status ≡ false
unfolding split_path rfind
nil-unsplit = refl

-- A path with a given split is a child of its parent only, under its own name only.
pub is_child-own :
    (path q c : Bytes)
    → (split_path path).status ≡ Status.ok
    → IsName c
    → q ≢ []
    → is_child path q c
      ≡ (if beq (split_path path).parent q then beq (split_path path).son c else false)
is_child-own path q c ok name n = ground (
  arith,
  is_child_iff path q c name n,
  beq_iff (split_path path).parent q,
  beq_iff (split_path path).son c,
)

-- No node stands at the empty path.
pub held-nonempty :
    (proc_root : Bytes) (at : Slots) (q : Bytes) (n : Node)
    → IsTree proc_root at
    → at q ≡ holds n
    → q ≢ []
held-nonempty proc_root at q n tree h e =
    let unlike : q ≢ root = λ (r : q ≡ root). cc in
    cc (nil-unsplit, ap (λ p. is_ok (split_path p).status) e, tree.splits q n h unlike)

-- Filling a path changes the count of its parent and name by one, and no other.
pub children_of-own :
    (proc_root : Bytes) (at at' : Slots) (path q c : Bytes)
    → ((k : Bytes) → present proc_root at' k ≡ (if beq path k then 1 else present proc_root at k))
    → present proc_root at path ≡ 0
    → (split_path path).status ≡ Status.ok
    → IsName c
    → q ≢ []
    → children_of proc_root at' q c ≡ (
        if (if beq (split_path path).parent q then beq (split_path path).son c else false)
        then suc (children_of proc_root at q c)
        else children_of proc_root at q c)
children_of-own proc_root at at' path q c h e splits name n =
    children_of-fill proc_root at at' path h e q c
    ∙ ap (λ b. if b then suc (children_of proc_root at q c) else children_of proc_root at q c)
        (is_child-own path q c splits name n)

-- The parent of a node lists its name.
pub listed :
    (proc_root : Bytes) (at : Slots) (path : Bytes) (node parent : Node)
    → IsTree proc_root at
    → (split_path path).status ≡ Status.ok
    → at path ≡ holds node
    → at (split_path path).parent ≡ holds parent
    → 1 ≤ count (split_path path).son parent.children
unfolding present
listed proc_root at path node parent tree good held under =
    let (_, _, _, name) = split_path_inv path good in
    let q : Bytes = (split_path path).parent in
    let c : Bytes = (split_path path).son in
    let nonempty : q ≢ [] = held-nonempty proc_root at q parent tree under in
    let mine : is_child path q c ≡ true =
      is_child-own path q c good name nonempty ∙ ground (arith, beq_refl q, beq_refl c) in
    let counted : 1 ≤ children_of proc_root at q c =
      children_of-pos proc_root at path q c mine (rw held (ground arith)) in
    ground (arith, counted, tree.counted q c parent name under)
