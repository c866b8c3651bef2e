-- ===== src/Tests/StoreRuns.antt =====
-- Runs of the store.
use pyxis.Prelude.{◌+◌, ◌%◌, ◌^◌, ◌↔◌, codes, true, false, [], ◌∷◌, ◌≡◌, refl, rfind, beq, some}
use pyxis.Common.Status
use pyxis.Common.Status.{Status, is_ok, to_rpc_error, from_rpc_error}
use pyxis.Paths.{root, split_path, is_valid_path, invalid_char}
use pyxis.Paths.Split.{IsName, is_child, split_ok, is_child_iff}
use pyxis.Node.{Node, is_ephemeral}
use pyxis.Store.{
  Store, Run, returns, aborts, new_store, create, delete, write, read, get, put, under_proc,
}
use pyxis.Store.View.{view}
use pyxis.Store.Invariant.{IsStore, create-IsStore, delete-IsStore}
use pyxis.Store.Init.{new_store-IsStore}
use pyxis.Tree.{holds, vacant}
use pyxis.Common.Code.{ErrorType, Error}
use pyxis.Db.{SavedSession}
use pyxis.Tree.Grow.{IsGrown}
use pyxis.Tree.Prune.{IsPruned}
use pyxis.Tree.Update.{IsUpdated}
use pyxis.Common.Status.RoundTrip.{from_rpc_error-to_rpc_error}
use pyxis.Tests.Memory.{env, env-IsEnv, starts_with, encode, decode, trim_left}
use pyxis.Node.{add_child, remove_child}
use pyxis.Store.Effects.{node_of, write_ok, delete_ok, create_ok}
use pyxis.Store.Saved.{set_commit_index}

abbrev or_first : Run (Store env) → Store env
or_first (returns s) = s
or_first _ = record { persist = []; proc = []; proc_root = [] }

-- A new store with the proc root /pyxis.
unfoldable pub empty_store : Store env
unfolding new_store put get create delete write read split_path rfind is_valid_path invalid_char
    starts_with encode decode trim_left add_child remove_child beq view
empty_store = or_first (new_store env [] [] (codes "/pyxis"))

pub pyxis-IsName : IsName (codes "pyxis")
unfolding rfind
pyxis-IsName = record { nonempty = λ h. cc; no_slash = refl }

pub empty_store_made : new_store env [] [] (codes "/pyxis") ≡ returns empty_store
unfolding empty_store
empty_store_made = refl

empty_store-IsStore : IsStore env empty_store
empty_store-IsStore =
    new_store-IsStore env env-IsEnv [] [] b'p' (codes "yxis") pyxis-IsName (λ k. refl) empty_store
      empty_store_made

-- With a node /a that holds one byte.
unfoldable pub one_node : Store env
unfolding empty_store
one_node = (create env empty_store (codes "/a") (7 ∷ []) 0 0).0

pub one_node-IsStore : IsStore env one_node
unfolding one_node
one_node-IsStore =
    create-IsStore env env-IsEnv empty_store empty_store-IsStore (codes "/a") (7 ∷ []) 0 0

create-IsStore_example : IsStore env (create env one_node (codes "/a/b") [] 1 5).0
create-IsStore_example =
    create-IsStore env env-IsEnv one_node one_node-IsStore (codes "/a/b") [] 1 5

delete-IsStore_example :
    (r : Store env × Status) × (delete env one_node (codes "/a") ≡ returns r) × IsStore env r.0
delete-IsStore_example = delete-IsStore env env-IsEnv one_node one_node-IsStore (codes "/a")

created-ok : is_ok (create env one_node (codes "/a/b") (9 ∷ []) 1 5).1 ≡ true
unfolding one_node
created-ok = refl

written-ok : is_ok (write env one_node (codes "/a") (8 ∷ [])).1 ≡ true
unfolding one_node
written-ok = refl

outside-a : under_proc env one_node (codes "/a") ≡ false
unfolding one_node
outside-a = refl

-- The path //a has the parent and the name of /a, so that the root lists the name twice.
doubled :
    view env (create env one_node (codes "//a") [] 0 0).0 root
    ≡ holds (record {
      content = [];
      children = codes "pyxis" ∷ codes "a" ∷ codes "a" ∷ [];
      flags = 0;
      version = 0;
      sid = 0;
    })
unfolding one_node
doubled = refl

-- A second Create of /a fails.
again-failed : is_ok (create env one_node (codes "/a") [] 0 0).1 ≡ false
unfolding one_node
again-failed = refl

create_ok_example :
    (parent : Node) × (view env one_node (codes "/a/b") ≡ vacant)
    × (view env one_node (split_path (codes "/a/b")).parent ≡ holds parent)
    × (is_ephemeral parent.flags ≡ false)
    × IsGrown
        (view env one_node)
        (view env (create env one_node (codes "/a/b") (9 ∷ []) 1 5).0)
        (codes "/a/b")
        parent
        (node_of (9 ∷ []) 1 5)
create_ok_example =
    create_ok env env-IsEnv one_node one_node-IsStore (codes "/a/b") (9 ∷ []) 1 5 created-ok

-- The store behind the deletion of /a.
emptied : Store env
unfolding one_node
emptied = elim (delete env one_node (codes "/a")) [ aborts ↦ one_node | returns r ↦ r.0 ]

emptied-made : delete env one_node (codes "/a") ≡ returns (emptied, Status.ok)
unfolding emptied
emptied-made = refl

delete_ok_example :
    (node parent parent' : Node) × (view env one_node (codes "/a") ≡ holds node)
    × (node.children ≡ [])
    × (view env one_node (split_path (codes "/a")).parent ≡ holds parent)
    × (remove_child parent (split_path (codes "/a")).son ≡ some parent')
    × IsPruned (view env one_node) (view env emptied) (codes "/a") parent'
delete_ok_example =
    delete_ok env env-IsEnv one_node one_node-IsStore (codes "/a") (emptied, Status.ok) emptied-made
      refl

write_ok_example :
    (node : Node) × (view env one_node (codes "/a") ≡ holds node)
    × IsUpdated
        (view env one_node)
        (view env (write env one_node (codes "/a") (8 ∷ [])).0)
        (codes "/a")
        (record node { content = 8 ∷ []; version = (node.version + 1) % 2 ^ 64 })
write_ok_example =
    write_ok env env-IsEnv one_node one_node-IsStore (codes "/a") (8 ∷ []) outside-a written-ok

a-IsName : IsName (codes "a")
unfolding rfind
a-IsName = record { nonempty = λ h. cc; no_slash = refl }

is_child_iff_example :
    (is_child (codes "//a") root (codes "a") ≡ true)
    ↔ (split_path (codes "//a") ≡ split_ok root (codes "a"))
is_child_iff_example = is_child_iff (codes "//a") root (codes "a") a-IsName (λ h. cc)

-- The row of a session, and the commit index.
abbrev row : SavedSession
row = record { sid = 7; watches = []; nodes = []; timeout = 5000 }

committed-ok : is_ok (set_commit_index env one_node 300).1 ≡ true
unfolding set_commit_index
committed-ok = refl

from_rpc_error-to_rpc_error_example :
    from_rpc_error (to_rpc_error (Status.timeout (codes "late"))) ≡ Status.internal (codes "late")
from_rpc_error-to_rpc_error_example = from_rpc_error-to_rpc_error (Status.timeout (codes "late"))

abbrev again_error : Error
again_error = record { type = ErrorType.again; payload = [] }
