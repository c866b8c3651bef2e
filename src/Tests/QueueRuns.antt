-- ===== src/Tests/QueueRuns.antt =====
-- A run of a leader whose register is broadcast and delivered.
use pyxis.Prelude.{◌⊎◌, [], ◌∷◌, some, ◌≡◌, refl, if◌then◌else◌, true}
use pyxis.Common.Status.{Status, is_ok, to_rpc_error}
use pyxis.Store.{Run, returns, aborts}
use pyxis.Server.{Server, State, response_of}
use pyxis.Messages.{Request, Response, no_request}
use pyxis.Store.Saved.{add_session}
use pyxis.Sessions.Manager.{raise_sid, insert_session, gen_sid}
use pyxis.Server.Commands.{on_register, on_command, run_command}
use pyxis.Server.Events.{handle_event}
use pyxis.Server.Queue.{Reach, elected, next, queues, on_command-answers}
use pyxis.Messages.{sid_of}
use pyxis.Server.Loops.{Choice, Looping, turn, turn-leads}
use pyxis.Tests.Memory.{env}
use pyxis.Tests.SessionRuns.{add_ms}
use pyxis.Tests.ServerRuns.{start, bounds}

abbrev or_start : Run (Server env) → Server env
or_start (returns s) = s
or_start aborts = start

abbrev leading : Server env
leading = record start { state = State.leader }

abbrev joins : Request
joins = record no_request { register = some 5000 }

-- The event 5 asks for a session.
abbrev asked : Server env
asked = or_start (handle_event env add_ms 0 bounds leading 5 joins)

abbrev cmd : Request
cmd = elim asked.broadcast [ [] ↦ no_request | (c ∷ cs) ↦ c ]

abbrev delivered : Server env
delivered = or_start (on_command env add_ms 0 asked cmd)

asked-Reach : Reach env add_ms bounds (record { server = asked; log = (5, cmd) ∷ [] })
unfolding handle_event
asked-Reach =
    next (record { server = leading; log = [] }) _ (elected leading refl refl)
      (queues 0 5 joins cmd [] asked refl refl)

on_command-answers_example :
    (asked.requests ≡ 5 ∷ [])
    × (((run_command env add_ms 0 (record asked { requests = [] }) cmd ≡ aborts)
          × (on_command env add_ms 0 asked cmd ≡ aborts))
        ⊎ ((u : Server env × Status × Response) × (t : Server env) × (run_command env add_ms 0
                (record asked { requests = [] })
                cmd
              ≡ returns u)
            × (on_command env add_ms 0 asked cmd ≡ returns t)
            × (response_of env t 5
                ≡ (if is_ok u.1 then u.2 else record u.2 { err = some (to_rpc_error u.1) }))
            × (t.requests ≡ [])))
on_command-answers_example =
    on_command-answers env add_ms bounds (record { server = asked; log = (5, cmd) ∷ [] }) 0 5 cmd []
      asked-Reach refl

-- The session that the event is answered with.
answered_with : (response_of env delivered 5).sid ≡ some 6
unfolding handle_event on_command on_register add_session insert_session raise_sid gen_sid
answered_with = refl

-- A waiter that takes the ping it tagged with 9.
abbrev waiting : Looping env
waiting = record { server = record start { state = State.waiter }; tag = 9 }

abbrev own_ping : Request
own_ping = record no_request { sid = some 9; ping = true }

abbrev led : Looping env
led = record { server = record start { state = State.leader }; tag = 9 }

takes_ping : turn env add_ms bounds [] 2 1 50 (Choice.command own_ping) waiting ≡ returns led
unfolding turn
takes_ping = refl

turn-leads_example :
    (waiting.server.state ≡ State.waiter)
    × ((c : Request) × (Choice.command own_ping ≡ Choice.command c)
        × (c.ping ≡ true)
        × (sid_of c ≡ 9))
turn-leads_example =
    turn-leads env add_ms bounds [] 2 1 50 (Choice.command own_ping) waiting led takes_ping refl
      refl
