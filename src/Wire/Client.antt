-- ===== src/Wire/Client.antt =====
-- Requests over the link (src/frama-c/client.rs). What comes back, and what the clock shows, is an
-- argument: one record for each round of a loop, in order.
pub mod Wait
pub mod Poll
pub mod Fetch
use frama_c_mcp.Prelude.{
  ℕ, suc, ◌+◌, ◌-◌, ◌%◌, ◌^◌, String, Bool, true, false, Option, none, some, List, [], ◌∷◌, ◌++◌,
  Result, ok, err, ◌=ˢ◌, ◌==◌, leb, if◌then◌else◌,
}
use frama_c_mcp.Json.{Value, get, as_bool, as_u64, as_array, and_then, unwrap_or, or_else}
use frama_c_mcp.Wire.Error.{
  FramaCError, FramaCRequestDiagnostics, CommandMessage, server, timeout_after, server_error,
  command_failed, timeout,
}
use frama_c_mcp.Wire.Message.{FramaCResponse, data_of, error, signal, cmd_line_on, cmd_line_off}

-- `format!("RQ.{}", self.counter)`: a request's id is its number, and `name` spells it.
pub record ClientInner : Type 0 where
  pub counter : ℕ  -- u64

unfoldable pub next_id : (ℕ → String) → ClientInner → ClientInner × String
next_id name c = (record c { counter = (c.counter + 1) % 2 ^ 64 }, name c.counter)

-- One round of a wait: when it begins, and what the receive answers.
pub record Turn : Type 0 where
  pub now : ℕ
  pub reply : Result FramaCError (Option FramaCResponse)

-- What one response does to a GET that waits for `id`: it settles it, or it is skipped.
get_outcome : String → FramaCResponse → Option (Result FramaCError Value)
get_outcome request_id (data_of id v) = if id =ˢ request_id then some (ok v) else none
get_outcome request_id (error id msg) =
    if id =ˢ request_id then some (err (server_error id msg)) else none
get_outcome request_id (FramaCResponse.rejected id) =
    if id =ˢ request_id then some (err (FramaCError.rejected id)) else none
get_outcome request_id _ = none

-- the loop of `wait_for_id`; `none` is a receive that has not ended
unfoldable pub wait_for_id : String → ℕ → ℕ → List Turn → Option (Result FramaCError Value)
unfolding get_outcome
wait_for_id request_id timeout_ms deadline [] = none
wait_for_id request_id timeout_ms deadline (turn ∷ turns) =
    let skip = wait_for_id request_id timeout_ms deadline turns in
    let remaining = deadline - turn.now in
    if remaining == 0 then some (err (timeout timeout_ms)) else elim turn.reply [
      | err e ↦ some (err e)
      | ok none ↦ some (err (timeout timeout_ms))
      | ok (some response) ↦ or_else (get_outcome request_id response) skip
    ]

pub record FramaCExecResult : Type 0 where
  pub payload : Value
  pub diagnostics : FramaCRequestDiagnostics

abbrev pub Settled : Type 0
Settled = Option (Result FramaCError FramaCExecResult)

-- what every settled branch of `terminal_outcome` records
abbrev settle : String → ℕ → FramaCRequestDiagnostics → FramaCRequestDiagnostics
settle kind elapsed d = record d { final_result = some kind; elapsed_ms = some elapsed }

abbrev fail :
    String
    → String
    → CommandMessage
    → ℕ
    → FramaCRequestDiagnostics
    → FramaCRequestDiagnostics × Settled
fail kind id msg elapsed d =
    let d' = settle kind elapsed d in (d', some (err (command_failed kind id msg d')))

-- `signal_count += 1`, on u64
abbrev count_signal : String → FramaCRequestDiagnostics → FramaCRequestDiagnostics
count_signal id d = record d {
  signal_count = (d.signal_count + 1) % 2 ^ 64;
  queued_task_id = or_else d.queued_task_id (some id);
}

unfoldable pub terminal_outcome :
    FramaCResponse → String → ℕ → FramaCRequestDiagnostics → FramaCRequestDiagnostics × Settled
terminal_outcome (data_of id v) request_id elapsed d =
    let d' = settle "DATA" elapsed d in
    if id =ˢ request_id
    then (d', some (ok (record { payload = v; diagnostics = d' })))
    else (d, none)
terminal_outcome (error id msg) request_id elapsed d =
    if id =ˢ request_id then fail "ERROR" id (server msg) elapsed d else (d, none)
terminal_outcome (FramaCResponse.killed id) request_id elapsed d =
    if id =ˢ request_id
    then fail "KILLED" id (CommandMessage.killed id) elapsed
        (record d { cancellation_result = some "killed" })
    else (d, none)
terminal_outcome (FramaCResponse.rejected id) request_id elapsed d =
    if id =ˢ request_id
    then fail "REJECTED" id (CommandMessage.rejected id) elapsed
        (record d { rejected_command_id = some id })
    else (d, none)
terminal_outcome (signal id) request_id elapsed d = (count_signal id d, none)
terminal_outcome cmd_line_on request_id elapsed d = (d, none)
terminal_outcome cmd_line_off request_id elapsed d = (d, none)

-- One round of the poll loop: the clock at its test and at its answer, what sending KILL or POLL
-- answers, and what the receive behind it answers. A rendering is what a message is formatted to.
pub record PollTurn : Type 0 where
  pub now : ℕ
  pub sent : Result FramaCError (Unit {0})
  pub reply : Result FramaCError (Option FramaCResponse)
  pub elapsed : ℕ

-- What a KILL came to, spelled from a response or an error: the three formats of the source.
pub record Rendering : Type 0 where
  pub kill_sent_then : FramaCResponse → String
  pub kill_sent_then_error : FramaCError → String
  pub kill_send_error : FramaCError → String

-- What became of the KILL that a poll sends at its deadline.
cancellation : Rendering → String → PollTurn → String
cancellation render request_id turn = elim turn.sent [
  | ok _ ↦ elim turn.reply [
    | ok (some (FramaCResponse.killed id)) ↦
        if id =ˢ request_id then "killed" else render.kill_sent_then (FramaCResponse.killed id)
    | ok (some other) ↦ render.kill_sent_then other
    | ok none ↦ "kill_sent"
    | err e ↦ render.kill_sent_then_error e
  ]
  | err e ↦ render.kill_send_error e
]

-- The deadline branch: KILL was sent, and the failure records what it came to.
unfoldable pub give_up :
    Rendering
    → String
    → ℕ
    → PollTurn
    → FramaCRequestDiagnostics
    → Result FramaCError FramaCExecResult
unfolding cancellation
give_up render request_id timeout_ms turn d = err (
    command_failed "TIMEOUT" request_id (timeout_after timeout_ms) (record d {
      final_result = some "TIMEOUT";
      elapsed_ms = some turn.elapsed;
      cancellation_result = some (cancellation render request_id turn);
    }))

-- an answer to a POLL, and what the loop does when it settles nothing
abbrev pub settle_or :
    (FramaCRequestDiagnostics → Settled) → FramaCRequestDiagnostics × Settled → Settled
settle_or rest (d, none) = rest d
settle_or rest (d, some r) = some r

abbrev pub on_reply :
    (FramaCRequestDiagnostics → Settled)
    → String
    → ℕ
    → FramaCRequestDiagnostics
    → Result FramaCError (Option FramaCResponse)
    → Settled
on_reply rest request_id elapsed d (err e) = some (err e)
on_reply rest request_id elapsed d (ok none) = rest d
on_reply rest request_id elapsed d (ok (some response)) =
    settle_or rest (terminal_outcome response request_id elapsed d)

-- the `loop` of `poll_loop`; `none` is a request that is still open
unfoldable pub polling :
    Rendering → String → ℕ → ℕ → List PollTurn → FramaCRequestDiagnostics → Settled
polling render request_id timeout_ms deadline [] d = none
polling render request_id timeout_ms deadline (turn ∷ turns) d =
    let rest = polling render request_id timeout_ms deadline turns in
    if leb deadline turn.now
    then some (give_up render request_id timeout_ms turn d)
    else elim turn.sent [
      | err e ↦ some (err e)
      | ok _ ↦ on_reply rest request_id turn.elapsed d turn.reply
    ]

abbrev pub no_diagnostics : String → String → FramaCRequestDiagnostics
no_diagnostics request_id request = record {
  request_id = request_id;
  request = request;
  queued_task_id = none;
  signal_count = 0;
  elapsed_ms = none;
  final_result = none;
  cancellation_result = none;
  rejected_command_id = none;
}

-- A request may have answered before the first POLL; `early` is when that receive ended.
unfoldable pub poll_loop :
    Rendering
    → String
    → String
    → ℕ
    → ℕ
    → ℕ
    → Result FramaCError (Option FramaCResponse)
    → List PollTurn
    → Settled
unfolding polling
poll_loop render request_id request timeout_ms deadline early first turns =
    on_reply (polling render request_id timeout_ms deadline turns) request_id early
      (no_diagnostics request_id request) first

-- one page of a table: whether it starts over, its rows, and how many are still pending
abbrev pub is_reload : Value → Bool
is_reload page = unwrap_or (and_then (get page "reload") as_bool) false

abbrev pub updated : Value → List Value
updated page = unwrap_or (and_then (get page "updated") as_array) []

abbrev pub pending : Value → ℕ
pending page = unwrap_or (and_then (get page "pending") as_u64) 0

abbrev pub extend : List Value → Value → List Value
extend rows page = (if is_reload page then [] else rows) ++ updated page

-- the loop of `fetch_all`, over what the GETs answer
fetch_from : List Value → List (Result FramaCError Value) → Option (Result FramaCError (List Value))
fetch_from rows [] = none
fetch_from rows (err e ∷ pages) = some (err e)
fetch_from rows (ok page ∷ pages) =
    let rest = fetch_from (extend rows page) pages in
    if pending page == 0 then some (ok (extend rows page)) else rest

unfoldable pub fetch_all :
    List (Result FramaCError Value) → Option (Result FramaCError (List Value))
unfolding fetch_from
fetch_all pages = fetch_from [] pages
