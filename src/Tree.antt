-- ===== src/Tree.antt =====
-- The tree that the nodes of a store form, over the slots at all paths.
pub mod Counting
pub mod Own
pub mod Grow
pub mod Prune
pub mod Update
pub mod Start
use pyxis.Prelude.{
  ℕ, ◌+◌, ◌%◌, Bytes, refl, Bool, true, false, List, [], ◌∷◌, ◌≡◌, ◌≢◌, ◌==◌, beq, if◌then◌else◌,
  ◌⊎◌, inl, inr,
}
use pyxis.Common.Status.{is_ok}
use pyxis.Paths.{root, slash, split_path}
use pyxis.Paths.Split.{join, IsName}
use pyxis.Node.{Node, is_ephemeral}
use pyxis.Node.Children.{count}

-- What stands at a path: nothing, a node, or a value that cannot be read.
pub data Slot : Type 0 where
  vacant unreadable : Slot
  holds : Node → Slot

abbrev pub Slots : Type 0
Slots = Bytes → Slot

-- 1 for a node, and 0 for none.
abbrev pub taken : Slot → ℕ
taken (holds n) = 1
taken _ = 0

pub Slot-cases : (o : Slot) → (taken o ≡ 0) ⊎ ((n : Node) × (o ≡ holds n))
Slot-cases vacant = inl refl
Slot-cases unreadable = inl refl
Slot-cases (holds n) = inr (n, refl)

module _ (proc_root : Bytes) where
  -- Whether a node stands at a path; one stands at the proc root.
  unfoldable pub present : Slots → Bytes → ℕ
  present at p = if beq proc_root p then 1 else taken (at p)

  -- The number of nodes whose path splits into a parent and a name.
  unfoldable pub children_of : Slots → Bytes → Bytes → ℕ
  children_of at q c =
      present at (join q c) + (if beq q root then present at (slash ∷ slash ∷ c) else 0)

  -- The parent of a path is a node that is not ephemeral.
  abbrev pub HasParent : Slots → Bytes → Type 0
  HasParent at p =
      (m : Node) × (at (split_path p).parent ≡ holds m) × (is_ephemeral m.flags ≡ false)

  -- Every node but the root has a parent, which is not ephemeral, and the children that a node
  -- lists are exactly the nodes under it, each as often as there are paths that split so.
  pub record IsTree (at : Slots) : Type 0 where
    pub readable : (p : Bytes) → at p ≢ unreadable
    pub splits :
        (p : Bytes) (n : Node) → at p ≡ holds n → p ≢ root → is_ok (split_path p).status ≡ true
    pub has_parent : (p : Bytes) (n : Node) → at p ≡ holds n → p ≢ root → HasParent at p
    pub counted :
        (q c : Bytes) (n : Node)
        → IsName c
        → at q ≡ holds n
        → count c n.children ≡ children_of at q c
