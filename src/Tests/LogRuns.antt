-- ===== src/Tests/LogRuns.antt =====
-- Runs of the event log and of the snapshot.
use pyxis.Prelude.{ℕ, codes, Bytes, true, List, [], ◌∷◌, some, ◌≡◌, refl}
use pyxis.Messages.{no_request}
use pyxis.EventLog.{EventLog, Line, get_action_and_node}
use pyxis.Db.{Db, Op}
use pyxis.Db.Laws.{IsLeveldb}
use pyxis.Store.{returns}
use pyxis.Store.Snapshot.{take_snapshot, take_snapshot-get, puts}
use pyxis.Tests.Memory.{log_db, log_db-IsLeveldb}

-- The name of a read that watches.
watched_stat :
    get_action_and_node (record no_request {
      stat = some (codes "/a");
      watch = some (record { path = codes "/a"; watch = 4; recursive = true });
    })
    ≡ (codes "statw", codes "/a")
unfolding get_action_and_node
watched_stat = refl

abbrev line : Line
line = record {
  addr = codes "-";
  event = codes "sess";
  sid = 7;
  xid = 0;
  param = codes "expire";
  err = [];
}

abbrev quiet_log : EventLog
quiet_log = record { flush_interval = 3; last_flush = 100; lines = []; flushed = 0 }

-- Five lines in twelve seconds, none of which is flushed.
abbrev slow_lines : List (ℕ × Line)
slow_lines = (103, line) ∷ (105, line) ∷ (108, line) ∷ (110, line) ∷ (112, line) ∷ []

-- A database whose iterator yields the puts of its log: whole where no key was written twice or
-- deleted.
abbrev rows_of : List Op → List (Bytes × Bytes)
rows_of [] = []
rows_of (Op.put k v ∷ ops) = (k, v) ∷ rows_of ops
rows_of (Op.delete k ∷ ops) = rows_of ops

abbrev rows_db : Db
rows_db = record log_db { seek = λ s k. rows_of s }

rows_db-IsLeveldb : IsLeveldb rows_db
rows_db-IsLeveldb = record {
  get-write = log_db-IsLeveldb.get-write;
  failed_write = log_db-IsLeveldb.failed_write;
  put_write = log_db-IsLeveldb.put_write;
  delete_write = log_db-IsLeveldb.delete_write;
}

abbrev two_rows : List Op
two_rows = Op.put (codes "/") (codes "x") ∷ Op.put (codes "/a") (codes "y") ∷ []

take_snapshot-get_example :
    (new : List Op) × (take_snapshot rows_db two_rows [] ≡ returns new)
    × ((k : Bytes) → rows_db.get new k ≡ rows_db.get two_rows k)
unfolding puts
take_snapshot-get_example =
    take_snapshot-get rows_db rows_db-IsLeveldb (λ s ops. refl) two_rows [] (λ k. refl) refl
      (λ k. refl)
