-- ===== src/Tests/ProcRuns.antt =====
-- Runs of the proc database.
use pyxis.Prelude.{◌≤◌, Bytes, codes, true, false, [], none, some, ◌≡◌, ◌⊎◌, refl, length, beq}
use pyxis.Maps.{find, assign}
use pyxis.Maps.Keys.{bytes_key, bytes_lt}
use pyxis.Common.Status
use pyxis.Common.Status.{Status}
use pyxis.ProcDb.{
  ProcDb, Reader, Writer, new_proc_db, register_read_node, register_write_node, route,
}
use pyxis.ProcDb.Routes.{ordered, route_lem}
use pyxis.Tests.Memory.{starts_with, starts_with_iff}

abbrev accept : Writer
accept args value = Status.ok

-- The server's map of readers, in part.
served : ProcDb
unfolding new_proc_db register_read_node register_write_node assign beq bytes_lt
served =
    register_write_node
      (register_read_node (new_proc_db (codes "/pyxis")) (codes "/pyxis/session")
        (Reader.client (λ a. (Status.ok, []))))
      (codes "/pyxis/snapshot") accept

served-ordered : ordered served.readers ≡ true
unfolding served ordered
served-ordered = refl

route_lem_example :
    ((route starts_with (codes "/pyxis/session/12") served.readers ≡ none)
      × ((j : Bytes) (b : Reader)
          → find j served.readers ≡ some b
          → starts_with (codes "/pyxis/session/12") j ≡ false))
    ⊎ ((k : Bytes) × (a : Reader) × (route starts_with (codes "/pyxis/session/12") served.readers
          ≡ some (k, a))
        × (find k served.readers ≡ some a)
        × (starts_with (codes "/pyxis/session/12") k ≡ true)
        × ((j : Bytes) (b : Reader)
            → find j served.readers ≡ some b
            → starts_with (codes "/pyxis/session/12") j ≡ true
            → length j ≤ length k))
route_lem_example =
    route_lem starts_with starts_with_iff (codes "/pyxis/session/12") served.readers served-ordered

served_writers-ordered : ordered served.writers ≡ true
unfolding served ordered
served_writers-ordered = refl
