-- ===== src/Tests/RefineRuns.antt =====
-- A run of the store beside the abstract tree.
use pyxis.Prelude.{codes, List, [], ◌∷◌, ◌≡◌}
use pyxis.Common.Status.{Status}
use pyxis.Store.{Store, returns, under_proc}
use pyxis.Store.View.{view}
use pyxis.Store.Invariant.{IsStore}
use pyxis.Store.Machine.{Call, create, delete, write, Runs}
use pyxis.Store.Refine.{apply_all, apply_all-Runs}
use pyxis.Tests.Memory.{env, env-IsEnv}
use pyxis.Tests.StoreRuns.{one_node, one_node-IsStore}

-- A child is created, its parent is not deleted, and both go.
abbrev calls : List Call
calls =
    create (codes "/a/b") (9 ∷ []) 1 5
    ∷ delete (codes "/a")
    ∷ write (codes "/a/b") (8 ∷ [])
    ∷ delete (codes "/a/b")
    ∷ delete (codes "/a")
    ∷ []

apply_all-Runs_example :
    (t : Store env) × (sts : List Status) × (apply_all env calls one_node ≡ returns (t, sts))
    × IsStore env t
    × Runs (under_proc env one_node) (view env one_node) calls sts (view env t)
apply_all-Runs_example = apply_all-Runs env env-IsEnv calls one_node one_node-IsStore
