-- ===== src/Lib.antt =====
-- pyxis: a coordination service. Clients hold sessions, and read, write and watch a tree of nodes; a
-- raft log replicates the changes, and leveldb keeps them.
--
-- The parts, and the files that model them:
--
--   Common, Common/Code, Common/Status   common/status.h, common/status.cc and the error messages of
--     proto/rpc.proto: Status, ToString, ToRpcError and FromRpcError.
--   Paths   IsValidPath and SplitPath of server/store.cc.
--   Node   proto/node.proto, common/node.h, and NewNode, AddChild and RemoveChild of server/store.cc.
--   Db   what the store calls: leveldb's DB, protobuf's encodings and toft's strings are the fields
--     of a record Env, and Db/Laws states the behaviour that theorems assume of them. Tests/Memory is
--     a database in memory and a codec that meet these laws.
--   Tree   the abstract store: a function from paths to nodes, when it is a tree, and how adding,
--     removing and changing one node keeps it one.
--   Store   server/store.h and server/store.cc. Store::Create, Delete, Read, Write, Get and Put are
--     functions on the state (the two databases and the proc root); a call whose CHECK may fail gives
--     a Run. Store/View gives the tree that a state stands for, and the other files prove the
--     operations against it. Store/Refine puts any list of calls beside the abstract machine of
--     Store/Machine. Store/Snapshot is TakeSnapshot. Store/Saved has the session rows, the commit index and the walks.
--   Watch   server/watch_manager.cc, server/watcher.h and common/watch_event.h. Triger gives the
--     watchers that are left and those notified, in order. The loop to the root runs on fuel; the
--     length of the path and one more is enough, since each round cuts off a name.
--   Maps, Words   std::map, std::multimap, std::set and memcpy as the program uses them.
--   Sessions   server/session.h and server/session.cc, and in Sessions/Manager
--     server/session_manager.cc. Times are microseconds, and muduo::addTime is a parameter.
--   Server   server/server.h and server/server.cc. Server/Calls has watchCallback, DeleteNode and the
--     destructor of a session; Server/Commands has onCommand and the commands of the log;
--     Server/Events has handleEvent and its handlers, the timer of the leader, onState, and the
--     transitions of the loops; Server/Queue follows the queue of a leader beside what raft was asked
--     to replicate; Server/Loops has mainLoop and the loops of the states, by what their selector
--     chooses; Server/Registry is
--     about Add and Remove of the session manager with their writes to the store; Server/Proc has what
--     the proc database reads of the server; Server/Recovery has
--     onSynced and onLoadSnapshot. An rpc::Event is named by a number, and a table holds the response
--     of each.
--   Replica   the part of a server that the log alone decides: the store, and which nodes each session
--     owns. Replica has the commands of server/server.cc without watches, times, pings and answers;
--     Replica/Mirror, Replica/Commands and Replica/Dispatch put the commands of Server beside them;
--     Replica/Calm, Replica/Quiet, Replica/Events and Replica/Timer take what leaves the replica as it
--     is. Replica/Log has a run of a server: turns of mainLoop, entries into its loops, onState and
--     onSynced, in any order, with the entries of the log that it ran; Replica/Replay and
--     Replica/Agree follow it. Replica/Held, Replica/Owns, Replica/Linked, Replica/Sweep and
--     Replica/Clean are about the ephemeral nodes of the sessions, and Replica/Start about a server on
--     an empty database. Replica/Reload and Replica/Loaded are about onLoadSnapshot, which finds the
--     sessions of the ephemeral nodes again.
--   ProcDb   server/proc_db.h and server/proc_db.cc: the callbacks by path.
--   Messages   proto/rpc.proto: the requests and responses.
--   Rpc   rpc/client.h and rpc/client.cc: the calls that wait by their ids, and each callback, which
--     gives the requests sent and the calls ended. Rpc/Counts has the inputs and a run over a list of
--     them; the socket, the timers of the calls and the loop that runs them are those inputs.
--     Rpc/Server is rpc/server.cc and onRpcDone of rpc/session.cc, and takes a call from a client to
--     a server and back.
--   EventLog   common/event_log.cc: what a line tells, and when the log is flushed.
--   Channel   base/channel.h: Put, Take and Close. A call under the mutex is one step, and one that
--     waits is tried again; Channel/Fifo has the steps of any number of threads as a relation.
--   Selector, Timer   base/selector.h, base/selector.cc and base/timer.h. What poll returns, and what
--     random_shuffle does to a list, are inputs.
--   Client   client/. Client/Watches is client/watch_manager.cc, Client/Cache is client/cache.cc,
--     Client/Reads has the calls of users of client/client_impl.cc, in halves before and behind the
--     wait. Client/Impl and Client/Loop are the rest of client/client_impl.cc: the state of ClientImpl
--     and what each event on its loop does, with the random address it may pick as an argument.
--   Tests   runs of these definitions at concrete inputs.
--
-- A handler of the server calls the store, then the watch manager, whose callbacks change the sessions
-- and answer the pings they hold. A session that expires is closed by the manager, which sends an
-- unregistration through the log; the command then removes the session, and its destructor removes its
-- watches and deletes its ephemeral nodes through the server.
--
-- The client holds one rpc client at a time. It connects, registers, and then keeps a ping waiting at
-- the server, whose response brings a watch event or nothing; the callback pings again, or takes
-- another connection. A call of a user waits beside it.
--
-- Machine integers: the ids of calls, versions, session ids and the commit index are taken modulo
-- 2^64. The timeout of a request is the 32-bit word of its int32. roundTo and the timer
-- compute in double, as the program does: Double has IEEE 754 with 53 bits for numbers that are not
-- negative, whose 128 rounds of scaling are enough for quotients of 64-bit numbers, and Double/Close
-- how close such a quotient is. Interval steps above 2147483 ms overflow an int, which is undefined.
--
-- Not modelled: sockets and codecs (the rest of rpc), the opening of
-- the cache and the destructor of ClientImpl, the programs (cmd), the text of log lines, the string
-- reader (common/strreader.h, which nothing uses), in the server the thread that makes a snapshot, and in
-- the store the statistics of leveldb that the proc database reads. raft itself is outside the
-- repository; its calls are the handlers above, in any order.
pub mod Prelude
pub mod Common
pub mod Paths
pub mod Node
pub mod Db
pub mod Tree
pub mod Store
pub mod Channel
pub mod Timer
pub mod Selector
pub mod Watch
pub mod Words
pub mod ProcDb
pub mod Maps
pub mod Double
pub mod Sessions
pub mod Messages
pub mod Server
pub mod Rpc
pub mod Client
pub mod EventLog
pub mod Replica
pub mod Tests
