-- ===== src/Store/Machine.antt =====
-- The abstract machine that the store refines: what each call may do to a tree of nodes.
use pyxis.Prelude.{ℕ, ◌+◌, ◌%◌, ◌^◌, Bytes, Bool, true, false, List, [], ◌∷◌, some, ◌≡◌}
use pyxis.Common.Status.{Status, is_ok}
use pyxis.Paths.{split_path}
use pyxis.Node.{Node, remove_child, is_ephemeral}
use pyxis.Tree.{Slots, vacant, holds}
use pyxis.Tree.Grow.{IsGrown}
use pyxis.Tree.Prune.{IsPruned}
use pyxis.Tree.Update.{IsUpdated}
use pyxis.Store.Effects.{node_of}

-- A call that changes the store.
pub data Call : Type 0 where
  create : Bytes → Bytes → ℕ → ℕ → Call
  delete : Bytes → Call
  write : Bytes → Bytes → Call

-- What a call, with its status, may do to the tree; `is_proc` tells the paths of the proc database.
pub data Does (is_proc : Bytes → Bool) (at at' : Slots) : Call → Status → Type 0 where
  -- a call that fails, and one on the proc database, does nothing
  refuses :
      (c : Call) (st : Status)
      → is_ok st ≡ false
      → ((k : Bytes) → at' k ≡ at k)
      → Does is_proc at at' c st
  hands_on :
      (path content : Bytes) (st : Status)
      → is_proc path ≡ true
      → ((k : Bytes) → at' k ≡ at k)
      → Does is_proc at at' (write path content) st
  grows :
      (path content : Bytes) (flags sid : ℕ) (st : Status) (parent : Node)
      → is_ok st ≡ true
      → at path ≡ vacant
      → at (split_path path).parent ≡ holds parent
      → is_ephemeral parent.flags ≡ false
      → IsGrown at at' path parent (node_of content flags sid)
      → Does is_proc at at' (create path content flags sid) st
  prunes :
      (path : Bytes) (st : Status) (node parent parent' : Node)
      → is_ok st ≡ true
      → at path ≡ holds node
      → node.children ≡ []
      → at (split_path path).parent ≡ holds parent
      → remove_child parent (split_path path).son ≡ some parent'
      → IsPruned at at' path parent'
      → Does is_proc at at' (delete path) st
  updates :
      (path content : Bytes) (st : Status) (node : Node)
      → is_ok st ≡ true
      → is_proc path ≡ false
      → at path ≡ holds node
      → IsUpdated at at' path
          (record node { content = content; version = (node.version + 1) % 2 ^ 64 })
      → Does is_proc at at' (write path content) st

-- A run of the abstract machine: the calls with their statuses.
pub data Runs (is_proc : Bytes → Bool) : Slots → List Call → List Status → Slots → Type 0 where
  none_left : (at : Slots) → Runs is_proc at [] [] at
  then_runs :
      {at at' at'' : Slots} (c : Call) (st : Status) (calls : List Call) (sts : List Status)
      → Does is_proc at at' c st
      → Runs is_proc at' calls sts at''
      → Runs is_proc at (c ∷ calls) (st ∷ sts) at''
