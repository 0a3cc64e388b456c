-- ===== src/Examples/Requests.antt =====
-- Requests and their answers.
use frama_c_mcp.Prelude.{
  ◌≡◌, ◌≢◌, ◌↔◌, ◌⊎◌, refl, true, Result, List, [], ◌∷◌, ◌++◌, some, none, ok, map, Option, arith,
}
use frama_c_mcp.Json.{find_field, Value, null, boolean, number, string, obj, arr}
use frama_c_mcp.Wire.Error.{FramaCError}
use frama_c_mcp.Wire.Message.{FramaCResponse, data_of, signal, decode_value}
use frama_c_mcp.Wire.Message.Laws.{Spells, decode_value_iff}
use frama_c_mcp.Wire.Client.{
  Turn, PollTurn, Rendering, FramaCExecResult, wait_for_id, terminal_outcome, poll_loop, polling,
  fetch_all,
}
use frama_c_mcp.Wire.Client.Wait.{IsAnswered, wait_for_id_iff, wait_for_id_ends}
use frama_c_mcp.Wire.Client.Poll.{HasData, poll_loop_ends, poll_loop-HasData}
use frama_c_mcp.Wire.Client.Fetch.{since_reload, fetch_all_lem}

-- an answer, as it is on the wire
abbrev answer_object : Value
answer_object = obj (("res", string "DATA") ∷ ("id", string "RQ.1") ∷ ("data", number 7) ∷ [])

decode_value_iff_example :
    (decode_value answer_object ≡ ok (data_of "RQ.1" (number 7)))
    ↔ Spells (data_of "RQ.1" (number 7)) answer_object
decode_value_iff_example = decode_value_iff answer_object (data_of "RQ.1" (number 7))

-- the answer of another request, and then this one's
abbrev turns : List Turn
turns =
    record { now = 5; reply = ok (some (data_of "RQ.0" null)) }
    ∷ record { now = 9; reply = ok (some (data_of "RQ.1" (number 7))) }
    ∷ []

wait_for_id_iff_example :
    (wait_for_id "RQ.1" 100 105 turns ≡ some (ok (number 7)))
    ↔ IsAnswered "RQ.1" 105 (number 7) turns
wait_for_id_iff_example = wait_for_id_iff "RQ.1" 100 105 turns (number 7)

abbrev late : Turn
late = record { now = 200; reply = ok none }

wait_for_id_ends_example : wait_for_id "RQ.2" 100 105 (turns ++ late ∷ []) ≢ none
wait_for_id_ends_example = wait_for_id_ends "RQ.2" 100 105 turns late [] (omega arith)

-- what a message is formatted to plays no part
abbrev plain : Rendering
plain = record {
  kill_sent_then = λ r. "r";
  kill_sent_then_error = λ e. "e";
  kill_send_error = λ e. "s";
}

abbrev signalled : PollTurn
signalled = record { now = 5; sent = ok tt; reply = ok (some (signal "RQ.9")); elapsed = 5 }

abbrev answered : PollTurn
answered = record {
  now = 6;
  sent = ok tt;
  reply = ok (some (data_of "RQ.1" (number 7)));
  elapsed = 7;
}

abbrev overdue : PollTurn
overdue = record { now = 300; sent = ok tt; reply = ok none; elapsed = 300 }

poll_loop_ends_example :
    poll_loop plain "RQ.1" "kernel.run" 100 105 1 (ok none) (signalled ∷ [] ++ overdue ∷ []) ≢ none
poll_loop_ends_example =
    poll_loop_ends plain "RQ.1" 100 105 "kernel.run" 1 (ok none) (signalled ∷ []) overdue []
      (omega arith)

-- no answer before the first poll
abbrev silence : Result FramaCError (Option FramaCResponse)
silence = ok none

-- the result of that request
abbrev result : FramaCExecResult
result = record {
  payload = number 7;
  diagnostics = record {
    request_id = "RQ.1";
    request = "kernel.run";
    queued_task_id = some "RQ.9";
    signal_count = 1;
    elapsed_ms = some 7;
    final_result = some "DATA";
    cancellation_result = none;
    rejected_command_id = none;
  };
}

poll_loop_test :
    poll_loop plain "RQ.1" "kernel.run" 100 105 1 (ok none) (signalled ∷ answered ∷ [])
    ≡ some (ok result)
unfolding poll_loop terminal_outcome polling
poll_loop_test = refl

poll_loop-HasData_example :
    (silence ≡ ok (some (data_of "RQ.1" (number 7))))
    ⊎ HasData "RQ.1" (number 7) (signalled ∷ answered ∷ [])
poll_loop-HasData_example =
    poll_loop-HasData plain "RQ.1" 100 105 "kernel.run" 1 silence (signalled ∷ answered ∷ [])
      poll_loop_test

abbrev page : Value
page =
    obj (("reload", boolean true) ∷ ("updated", arr (number 1 ∷ [])) ∷ ("pending", number 1) ∷ [])

abbrev last_page : Value
last_page = obj (("updated", arr (number 2 ∷ [])) ∷ ("pending", number 0) ∷ [])

fetch_all_lem_example :
    fetch_all (map ok (page ∷ [] ++ last_page ∷ []) ++ [])
    ≡ some (ok (since_reload (page ∷ [] ++ last_page ∷ [])))
unfolding find_field
fetch_all_lem_example = fetch_all_lem (page ∷ []) last_page [] ((λ e. omega arith), tt) refl
