-- ===== src/Node.antt =====
-- store::Node of proto/node.proto, and the helpers on it in server/store.cc.
pub mod Children
use pyxis.Prelude.{
  ℕ, Bytes, List, [], ◌∷◌, ◌++◌, Option, none, some, Bool, beq, if◌then◌else◌, ◌%◌, ◌==◌,
}

-- NodeFlags: the low bit is kEphemeral.
abbrev pub persist : ℕ
persist = 0

abbrev pub ephemeral : ℕ
ephemeral = 1

-- flags & kEphemeral.
abbrev pub is_ephemeral : ℕ → Bool
is_ephemeral flags = flags % 2 == 1

-- An unset field reads as its default: no bytes, or 0.
pub record Node : Type 0 where
  pub content : Bytes
  pub children : List Bytes
  pub flags : ℕ
  pub version : ℕ
  pub sid : ℕ

abbrev pub empty : Node
empty = record { content = []; children = []; flags = 0; version = 0; sid = 0 }

-- NewNode writes three fields of a node that the caller has just made.
abbrev pub new_node : Node → Bytes → ℕ → Node
new_node node content flags = record node { content = content; flags = flags; version = 0 }

-- AddChild, which cannot fail.
unfoldable pub add_child : Node → Bytes → Node
add_child node son = record node { children = node.children ++ son ∷ [] }

-- The elements behind the first, with the last one moved to the front: SwapElements(0, size - 1)
-- and RemoveLast on a list whose first element is dropped.
unfoldable pub last_first : List Bytes → List Bytes
last_first [] = []
last_first (x ∷ []) = x ∷ []
last_first (x ∷ y ∷ ys) = elim (last_first (y ∷ ys)) [ [] ↦ x ∷ [] | l ∷ rest ↦ l ∷ x ∷ rest ]

-- The loop of RemoveChild over the names; none when the name is not there.
unfoldable pub swap_remove : Bytes → List Bytes → Option (List Bytes)
unfolding last_first
swap_remove son [] = none
swap_remove son (c ∷ cs) =
    let rest = swap_remove son cs in
    if beq c son then some (last_first cs) else elim rest [ none ↦ none | some r ↦ some (c ∷ r) ]

-- RemoveChild: none is its NotFound.
unfoldable pub remove_child : Node → Bytes → Option Node
unfolding swap_remove
remove_child node son = elim (swap_remove son node.children) [
  | none ↦ none
  | some cs ↦ some (record node { children = cs })
]
