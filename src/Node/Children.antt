-- ===== src/Node/Children.antt =====
-- The children of a node, counted: AddChild and RemoveChild change the count of one name by one.
use pyxis.Prelude.{
  ℕ, suc, ◌+◌, Bytes, List, [], ◌∷◌, ◌++◌, none, some, ◌≡◌, refl, arith, beq, beq_iff,
  if◌then◌else◌, Option-cases, inl, inr,
}
use pyxis.Node.{Node, add_child, remove_child, swap_remove, last_first}

-- How often a name stands among the children.
unfoldable pub count : Bytes → List Bytes → ℕ
count s [] = 0
count s (c ∷ cs) = let rest = count s cs in if beq c s then suc rest else rest

pub count-append : (s : Bytes) (xs ys : List Bytes) → count s (xs ++ ys) ≡ count s xs + count s ys
unfolding count
count-append s [] ys = omega arith
count-append s (x ∷ xs) ys = ground (arith, count-append s xs ys)

pub count-add_child :
    (s son : Bytes) (n : Node)
    → count s (add_child n son).children
      ≡ (if beq son s then suc (count s n.children) else count s n.children)
unfolding add_child count
count-add_child s son n = ground (arith, count-append s n.children (son ∷ []))

count-last_first : (s : Bytes) (xs : List Bytes) → count s (last_first xs) ≡ count s xs
unfolding last_first count
count-last_first s [] = refl
count-last_first s (x ∷ []) = refl
count-last_first s (x ∷ y ∷ ys) = ground (arith, count-last_first s (y ∷ ys))

pub count-swap_remove :
    (s son : Bytes) (cs r : List Bytes)
    → swap_remove son cs ≡ some r
    → count s cs ≡ (if beq son s then suc (count s r) else count s r)
unfolding swap_remove count
count-swap_remove s son [] r h = ground arith
count-swap_remove s son (c ∷ cs) r h = elim (Option-cases (swap_remove son cs)) [
  | inl e ↦ ground (arith, count-last_first s cs, e, beq_iff c son, beq_iff c s, beq_iff son s)
  | inr (t, e) ↦ ground (
    arith,
    e,
    count-last_first s cs,
    count-swap_remove s son cs t e,
    beq_iff c son,
    beq_iff c s,
    beq_iff son s,
  )
]

-- RemoveChild finds every name that occurs.
pub swap_remove-found :
    (son : Bytes) (cs : List Bytes) → swap_remove son cs ≡ none → count son cs ≡ 0
unfolding swap_remove count
swap_remove-found son [] h = refl
swap_remove-found son (c ∷ cs) h = ground (arith, swap_remove-found son cs)

-- RemoveChild takes away one occurrence of the name, and nothing else of the node.
pub remove_child_lem :
    (son : Bytes) (n m : Node)
    → remove_child n son ≡ some m
    → (cs : List Bytes) × (swap_remove son n.children ≡ some cs) × (m ≡ record n { children = cs })
unfolding remove_child
remove_child_lem son n m h = elim (Option-cases (swap_remove son n.children)) [
  | inl e ↦ absurd (ground (arith, e))
  | inr (cs, e) ↦ (cs, e, ground (arith, e))
]

pub count-remove_child :
    (s son : Bytes) (n m : Node)
    → remove_child n son ≡ some m
    → count s n.children ≡ (if beq son s then suc (count s m.children) else count s m.children)
count-remove_child s son n m h =
    let (cs, e, at) = remove_child_lem son n m h in
    ground (arith, at, count-swap_remove s son n.children cs e)

-- RemoveChild fails only for a name that the node does not list.
pub remove_child-missing :
    (son : Bytes) (n : Node) → remove_child n son ≡ none → count son n.children ≡ 0
unfolding remove_child
remove_child-missing son n h = elim (Option-cases (swap_remove son n.children)) [
  | inl e ↦ swap_remove-found son n.children e
  | inr (cs, e) ↦ absurd (ground (arith, e))
]
