-- ===== src/Tests/Replays.antt =====
-- The theorems on src/boule/ledger.py and src/boule/protocol.py at the session of the tests.
use daryxx_boule_protocol.Prelude.{◌+◌, ◌≡◌, List, [], length}
use daryxx_boule_protocol.Python.{Error, ok, err, Value}
use daryxx_boule_protocol.Ledger.{create, append, Cursor, verify}
use daryxx_boule_protocol.Protocol.{initial, apply, replay_ledger}
use daryxx_boule_protocol.Protocol.Atomic.{Method, call, call_all, call_atomic}
use daryxx_boule_protocol.Protocol.Sync.{replay-call_all}
use daryxx_boule_protocol.Protocol.Phases.{IsCoherent-initial, Advances, apply-Advances}
use daryxx_boule_protocol.Protocol.Reviews.{IsCommitted, replay_ledger-IsCommitted}
use daryxx_boule_protocol.Protocol.Order.{
  Extends, apply-Extends, DependsBack, replay_ledger-DependsBack,
}
use daryxx_boule_protocol.Ledger.Appends.{verify-append}
use daryxx_boule_protocol.Ledger.Creation.{verify-create}
use daryxx_boule_protocol.Tests.Toy.{toy, toy-IsSound}
use daryxx_boule_protocol.Tests.Cases.{case_value}
use daryxx_boule_protocol.Tests.Script.{reviewers, methods}
use daryxx_boule_protocol.Tests.Runs.{opened, first_call, first_entry, second, steps}

abbrev replayed : List Value
replayed = (call_all toy methods opened.0).ledger

replay-call_all_example : replay_ledger toy replayed ≡ ok (call_all toy methods opened.0).state
replay-call_all_example =
    replay-call_all toy toy-IsSound case_value reviewers "k" "t" methods opened.1

-- What the run comes to.
abbrev finished : (s : _) × (replay_ledger toy replayed ≡ ok s)
finished = (
  (call_all toy methods opened.0).state,
  replay-call_all toy toy-IsSound case_value reviewers "k" "t" methods opened.1,
)

replay_ledger-IsCommitted_example : IsCommitted toy finished.0
replay_ledger-IsCommitted_example = replay_ledger-IsCommitted toy replayed finished.1

replay_ledger-DependsBack_example : DependsBack [] finished.0.contributions
replay_ledger-DependsBack_example = replay_ledger-DependsBack toy replayed finished.1

abbrev opening : (s : _) × (apply toy initial first_entry ≡ ok s)
opening = (steps.2, steps.3)

apply-Advances_example : Advances initial opening.0
apply-Advances_example = apply-Advances toy initial first_entry IsCoherent-initial opening.1

abbrev appended :
    (out : List Value × Value) × (append toy first_call.0.ledger "contribution_added" second "bb"
        "k" "t"
      ≡ ok out)
appended = (steps.4, steps.5)

abbrev accepted : (s : _) × (apply toy first_call.0.state appended.0.1 ≡ ok s)
accepted = (steps.6, steps.7)

apply-Extends_example : Extends first_call.0.state accepted.0
apply-Extends_example = apply-Extends toy first_call.0.state appended.0.1 accepted.1

abbrev verified : (c : Cursor) × (verify toy first_call.0.ledger ≡ ok c)
verified = (steps.8, steps.9)

verify-append_example :
    (d : Cursor) × (verify toy appended.0.0 ≡ ok d)
    × (d.expected_seq ≡ length first_call.0.ledger + 1)
verify-append_example =
    verify-append toy toy-IsSound first_call.0.ledger "contribution_added" second "bb" "k" "t"
      verified.1 appended.1

abbrev too_early : (e : Error) × ((call toy (Method.finalize "t") opened.0).0 ≡ err e)
too_early = (steps.10, steps.11)

call_atomic_example : (call toy (Method.finalize "t") opened.0).1 ≡ opened.0
call_atomic_example = call_atomic toy (Method.finalize "t") opened.0 too_early.1

abbrev created : (entries : List Value) × (create toy case_value reviewers "k" "t" ≡ ok entries)
created = (steps.0, steps.1)

verify-create_example : (d : Cursor) × (verify toy created.0 ≡ ok d) × (length created.0 ≡ 1)
verify-create_example = verify-create toy toy-IsSound case_value reviewers "k" "t" created.1
