-- ===== src/Client/Reads.antt =====
-- client/client_impl.cc and common/node.cc: the calls of users, in halves before and behind `call`,
-- which gives them a status and a response. The write and the read of the cache are under a lock of
-- their own; the handler of an event may run between the halves.
use pyxis.Prelude.{
  ℕ, Bytes, codes, Bool, true, false, ◌&&◌, ◌++◌, [], Option, none, some, if◌then◌else◌, ◌==◌,
}
use pyxis.Common.Status
use pyxis.Common.Status.{Status, is_ok, is_disconnect}
use pyxis.Messages.{Request, Response, no_request}
use pyxis.Node
use pyxis.Node.{Node}
use pyxis.Db.{Env}
use pyxis.Store.{Run, returns, aborts}
use pyxis.Maps.Keys.{bytes_key}
use pyxis.Client.Watches
use pyxis.Client.Watches.{Watches, Watcher, Callback}
use pyxis.Client.Cache
use pyxis.Client.Impl.{State, is_connected}

-- ReadOptions, whose constructor leaves the callback empty.
pub record ReadOptions : Type 0 where
  pub watch_event : ℕ
  pub recursive : Bool
  pub callback : Callback

-- CopyNodeFromProto, on the same fields: the children are put behind those that are there.
unfoldable pub copy_node_from_proto : Node → Node → Node
copy_node_from_proto node proto = record proto { children = node.children ++ proto.children }

-- Read before the call: its request, and the watcher it adds.
unfoldable pub read_begin : ReadOptions → Bytes → Watches → Request × Watches
unfolding Watches.add
read_begin options path m =
    if options.watch_event == 0 then (record no_request { stat = some path }, m) else (
      record no_request {
        stat = some path;
        watch =
            some
              (record { path = path; watch = options.watch_event; recursive = options.recursive });
      },
      Watches.add m path (record {
        path = path;
        mask = options.watch_event;
        recursive = options.recursive;
        done = options.callback;
      }),
    )

-- The requests of Write, Create, Delete and unregister; the status of their call is what they return.
abbrev pub write_request : Bytes → Bytes → Request
write_request path content = record no_request {
  write = some (record { path = path; content = content });
}

abbrev pub create_request : ℕ → Bytes → Bytes → Request
create_request flags path content = record no_request {
  create = some (record { path = path; flags = flags; content = content });
}

abbrev pub delete_request : Bytes → Request
delete_request path = record no_request { delete = some path }

abbrev pub unregister_request : Request
unregister_request = record no_request { unregister = true }

-- The request of watcherWalker, which registers a watcher again.
abbrev pub watcher_walker : Watcher → Request
watcher_walker w = record no_request {
  watch = some (record { path = w.path; watch = w.mask; recursive = w.recursive });
}

-- Sid, with a place for the sid: the status, and what is stored.
unfoldable pub get_sid : State → ℕ → Status × Option ℕ
get_sid state sid =
    if is_connected state
    then (Status.ok, some sid)
    else (Status.disconnect (codes "connection lost"), none)

-- What Read leaves: the cache, the watchers, the status, and the node of the caller.
pub record After (env : Env) : Type 0 where
  pub cache : Cache.State env
  pub watches : Watches
  pub status : Status
  pub node : Option Node

module _ (env : Env) where
  -- A node pointer may be null.
  abbrev pub copied : Option Node → Node → Option Node
  copied none proto = none
  copied (some node) proto = some (copy_node_from_proto node proto)

  -- Read behind a call that failed.
  unfoldable pub read_failed :
      Bool → Cache.State env → Bytes → Watches → Status → Option Node → Run (After env)
  unfolding Watches.remove copy_node_from_proto
  read_failed enable_cache cache path m st node =
      let kept : After env = record {
        cache = cache;
        watches = Watches.remove m path;
        status = st;
        node = node;
      } in
      if enable_cache && is_disconnect st
      then elim (Cache.read env cache path Node.empty) [
        | aborts ↦ aborts
        | returns (st1, proto) ↦ returns (
            if is_ok st1
            then record kept { status = Status.cached path; node = copied node proto }
            else kept)
      ]
      else returns kept

  -- Read behind ParseFromString.
  unfoldable pub read_parsed :
      Bool → Cache.State env → Bytes → Watches → Option Node → Bool × Node → Run (After env)
  unfolding copy_node_from_proto
  read_parsed enable_cache cache path m node (false, proto) = returns (record {
    cache = cache;
    watches = m;
    status = Status.internal (codes "decode stat error");
    node = node;
  })
  read_parsed enable_cache cache path m node (true, proto) =
      let after : After env = record {
        cache = cache;
        watches = m;
        status = Status.ok;
        node = copied node proto;
      } in
      if enable_cache
      then elim (Cache.write env cache path proto) [
        | aborts ↦ aborts
        | returns (cache', st1) ↦ returns (record after { cache = cache' })
      ]
      else returns after

  -- Read behind the call.
  unfoldable pub read_end :
      Bool → Cache.State env → Bytes → Watches → Status → Response → Option Node → Run (After env)
  unfolding read_failed read_parsed
  read_end enable_cache cache path m st rep node =
      if is_ok st
      then read_parsed enable_cache cache path m node
          (env.parse (elim rep.content [ none ↦ [] | some b ↦ b ]))
      else read_failed enable_cache cache path m st node
