-- ===== src/Replica/Held.antt =====
-- The ephemeral nodes of the sessions, over the calls of the store.
use pyxis.Prelude.{
  ℕ, Bytes, Bool, true, [], none, some, ◌≡◌, ◌≢◌, sym, ap, ◌∙◌, arith, beq, beq_iff, beq_refl,
  Bool-cases, inl, inr, ◌⊎◌, if◌then◌else◌, Option,
}
use pyxis.Common.Status.{Status, is_ok}
use pyxis.Paths.{split_path}
use pyxis.Node.{remove_child, is_ephemeral, swap_remove, add_child}
use pyxis.Tree.{Slots, Slot, vacant, holds, unreadable}
use pyxis.Store.Machine.{create, delete, write, Does, refuses, hands_on, grows, prunes, updates}

-- The session whose ephemeral node stands at a slot.
abbrev pub ephemeral_of : Slot → Option ℕ
ephemeral_of (holds n) = if is_ephemeral n.flags then some n.sid else none
ephemeral_of _ = none

-- An ephemeral node of a session stands at a path.
abbrev pub IsHeld : Slots → Bytes → ℕ → Type 0
IsHeld at p i = ephemeral_of (at p) ≡ some i

module _ (is_proc : Bytes → Bool) (at at' : Slots) (p : Bytes) (i : ℕ) where
  -- Behind a Write the ephemeral nodes are those before it.
  pub write-held :
      (path content : Bytes) (st : Status)
      → Does is_proc at at' (write path content) st
      → IsHeld at' p i
      → IsHeld at p i
  write-held _ _ _ (refuses (write path content) st f same) h = ap ephemeral_of (sym (same p)) ∙ h
  write-held _ _ _ (hands_on path content st f same) h = ap ephemeral_of (sym (same p)) ∙ h
  write-held _ _ _ (updates path content st node ok out held updated) h =
      ground (arith, updated p, h, held, beq_iff path p)

  -- Behind a Delete they are some of those before it, and none at its path if it succeeded.
  pub delete-held :
      (path : Bytes) (st : Status)
      → Does is_proc at at' (delete path) st
      → IsHeld at' p i
      → IsHeld at p i × (is_ok st ≡ true → path ≢ p)
  unfolding remove_child swap_remove
  delete-held _ _ (refuses (delete path) st f same) h =
      (ap ephemeral_of (sym (same p)) ∙ h, λ k. absurd (ground (arith, f, k)))
  delete-held _ _ (prunes path st node parent parent' ok held childless under removed pruned) h = (
    ground (arith, pruned p, h, under, removed, beq_iff (split_path path).parent p),
    λ _ at_path. elim (Bool-cases (beq (split_path path).parent p)) [
      | inr e ↦ ground (arith, pruned p, h, at_path, beq_refl path, beq_iff path p, e)
      | inl e ↦
          let same : (split_path path).parent ≡ path =
            (beq_iff (split_path path).parent p).0 e ∙ sym at_path in
          let one : holds parent ≡ holds node = sym under ∙ ap at same ∙ held in
          let none_left : parent.children ≡ [] =
            ap (λ o. elim o [ holds n ↦ n.children | vacant ↦ [] | unreadable ↦ [] ]) one
            ∙ childless in
          ground (arith, removed, none_left)
    ],
  )

  -- Behind a Create they are those before it and, if it succeeded, its own.
  pub create-held :
      (path content : Bytes) (flags sid : ℕ) (st : Status)
      → Does is_proc at at' (create path content flags sid) st
      → IsHeld at' p i
      → IsHeld at p i ⊎ ((is_ok st ≡ true) × (path ≡ p) × (is_ephemeral flags ≡ true) × (sid ≡ i))
  unfolding add_child
  create-held _ _ _ _ _ (refuses (create path content flags sid) st f same) h =
      inl (ap ephemeral_of (sym (same p)) ∙ h)
  create-held _ _ _ _ _ (grows path content flags sid st parent ok free under persists grown) h =
      ground
        (arith, grown p, h, under, persists, beq_iff (split_path path).parent p, beq_iff path p)
