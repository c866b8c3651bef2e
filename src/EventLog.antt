-- ===== src/EventLog.antt =====
-- common/event_log.h and common/event_log.cc: the log of events, and watch::Event::String. The text of
-- a line (its times, widths and quotes) is fprintf's; a line is a record of its parts here.
use pyxis.Prelude.{
  ℕ, ◌+◌, Bytes, codes, Bool, true, false, ◌&&◌, List, [], ◌∷◌, ◌++◌, Option, none, some, ◌≡◌, refl,
  arith, if◌then◌else◌, ltb, leb, length, length-append, ◌==◌,
}
use pyxis.Common.Status.{to_string, from_rpc_error}
use pyxis.Common.Code.{ErrorType}
use pyxis.Messages.{Request, Response, sid_of, is_some}
use pyxis.Watch.{Event}

-- What a line tells.
pub record Line : Type 0 where
  pub addr : Bytes
  pub event : Bytes
  pub sid : ℕ
  pub xid : ℕ
  pub param : Bytes
  pub err : Bytes

-- EventLog: the lines of the file, of which the first `flushed` were flushed by the log.
pub record EventLog : Type 0 where
  pub flush_interval : ℕ
  pub last_flush : ℕ
  pub lines : List Line
  pub flushed : ℕ

-- Reload: fclose flushes, and fopen goes on at the end.
unfoldable pub reload : EventLog → EventLog
reload l = record l { flushed = length l.lines }

-- Log, at a time.
unfoldable pub log : ℕ → Line → EventLog → EventLog
log now line l =
    let lines = l.lines ++ line ∷ [] in
    record l {
      lines = lines;
      flushed = if ltb (l.last_flush + l.flush_interval) now then length lines else l.flushed;
      last_flush = now;
    }

-- watch::Event::String.
unfoldable pub event_type_name : ℕ → Bytes
event_type_name t =
    if t == 0
    then codes "None"
    else if t == 1
    then codes "Create"
    else if t == 2
    then codes "Delete"
    else if t == 4
    then codes "Modify"
    else if t == 8
    then codes "Children"
    else if t == 16
    then codes "Connected"
    else if t == 32
    then codes "Disconnected"
    else codes "???"

unfoldable pub event_string : Event → Bytes
unfolding event_type_name
event_string e = codes "[" ++ e.node ++ codes ", " ++ event_type_name e.type ++ codes "]"

abbrev first_of {ℓ} : {A : Type ℓ} → List (Option A) → A → A
first_of [] a = a
first_of (none ∷ rest) a = first_of rest a
first_of (some b ∷ rest) a = b

abbrev flag : Bool → Bytes → Option (Bytes × Bytes)
flag true action = some (action, codes "-")
flag false action = none

abbrev named : Bytes → Option Bytes → Option (Bytes × Bytes)
named action none = none
named action (some path) = some (action, path)

-- getActionAndNode: the first part that the request has, and a mark for a watch.
unfoldable pub get_action_and_node : Request → Bytes × Bytes
get_action_and_node req =
    let (action, node) =
      first_of
        (flag req.ping (codes "ping")
          ∷ flag (is_some req.register) (codes "reg")
          ∷ flag req.unregister (codes "unreg")
          ∷ named (codes "stat") req.stat
          ∷ named (codes "read") req.read
          ∷ named (codes "write") (elim req.write [ none ↦ none | some w ↦ some w.path ])
          ∷ named (codes "create") (elim req.create [ none ↦ none | some c ↦ some c.path ])
          ∷ named (codes "delete") req.delete
          ∷ named (codes "watch") (elim req.watch [ none ↦ none | some w ↦ some w.path ])
          ∷ [])
        (codes "???", codes "???") in
    ((if is_some req.watch then action ++ codes "w" else action), node)

-- LogWatch.
unfoldable pub log_watch : ℕ → ℕ → Event → EventLog → EventLog
unfolding log event_string
log_watch now sid e l =
    log now
      (record {
        addr = codes "-";
        event = codes "wevent";
        sid = sid;
        xid = 0;
        param = event_string e;
        err = [];
      })
      l

-- LogRpc; err() of a response without one is an empty kNone.
unfoldable pub log_rpc : ℕ → Bytes → Request → Response → EventLog → EventLog
unfolding log get_action_and_node to_string from_rpc_error
log_rpc now addr req rep l =
    let (event, param) = get_action_and_node req in
    log now
      (record {
        addr = addr;
        event = event;
        sid = sid_of req;
        xid = elim req.xid [ none ↦ 0 | some x ↦ x ];
        param = param;
        err = to_string (
            from_rpc_error (elim rep.err [
              | none ↦ record { type = ErrorType.no_error; payload = [] }
              | some e ↦ e
            ]));
      })
      l

-- LogSession.
unfoldable pub log_session : ℕ → ℕ → Bytes → EventLog → EventLog
unfolding log
log_session now sid what l =
    log now
      (record {
        addr = codes "-";
        event = codes "sess";
        sid = sid;
        xid = 0;
        param = what;
        err = [];
      })
      l

unfoldable pub log_all : List (ℕ × Line) → EventLog → EventLog
unfolding log
log_all [] l = l
log_all ((now, line) ∷ rest) l = log_all rest (log now line l)

-- Whether each line comes at most the interval behind the line before it.
unfoldable pub steady : ℕ → ℕ → List (ℕ × Line) → Bool
steady interval last [] = true
steady interval last ((now, line) ∷ rest) = leb now (last + interval) && steady interval now rest

-- As long as no line comes more than the interval behind the line before it, Log keeps every line but
-- flushes none, however much time goes by in all.
pub log_all-steady :
    (rest : List (ℕ × Line)) (l : EventLog)
    → steady l.flush_interval l.last_flush rest ≡ true
    → ((log_all rest l).flushed ≡ l.flushed)
      × (length (log_all rest l).lines ≡ length l.lines + length rest)
unfolding log_all steady log
log_all-steady [] l h = (refl, omega arith)
log_all-steady ((now, line) ∷ rest) l h =
    let (flushed, kept) = log_all-steady rest (log now line l) (ground arith) in
    (ground (arith, flushed), ground (arith, kept, length-append l.lines (line ∷ [])))
