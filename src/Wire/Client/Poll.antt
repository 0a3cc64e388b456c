-- ===== src/Wire/Client/Poll.antt =====
-- SET and EXEC: which response ends the polling, what the diagnostics keep, and that it ends.
use frama_c_mcp.Prelude.{
  ℕ, ◌≤◌, ◌≡◌, ◌≢◌, refl, ap, String, Option, none, some, List, [], ◌∷◌, ◌++◌, arith, Result, ok,
  err, ◌=ˢ◌, =ˢ_iff, ◌↔◌, ◌⊎◌, inl, inr, Bool-cases,
}
use frama_c_mcp.Json.{Value}
use frama_c_mcp.Wire.Error.{
  FramaCError, FramaCRequestDiagnostics, command_failed, timeout_after, server,
}
use frama_c_mcp.Wire.Message.{FramaCResponse, data_of, error, signal, cmd_line_on, cmd_line_off}
use frama_c_mcp.Wire.Client.{
  FramaCExecResult, Settled, terminal_outcome, PollTurn, Rendering, give_up, polling, poll_loop,
  on_reply, settle_or, no_diagnostics,
}

-- The responses that end a queued request: one of four kinds, under its own id.
abbrev Concludes : String → FramaCResponse → Type 0
Concludes id (data_of other v) = other ≡ id
Concludes id (error other msg) = other ≡ id
Concludes id (FramaCResponse.killed other) = other ≡ id
Concludes id (FramaCResponse.rejected other) = other ≡ id
Concludes id _ = ⊥

-- What an answer says of the diagnostics that came to it.
abbrev Reports : FramaCResponse → FramaCRequestDiagnostics → Settled → Type 0
Reports r d none = Unit
Reports (data_of id v) d (some (ok res)) =
    (res.payload ≡ v) × (res.diagnostics ≡ d) × (d.final_result ≡ some "DATA")
Reports (error id msg) d (some (err e)) =
    (e ≡ command_failed "ERROR" id (server msg) d) × (d.final_result ≡ some "ERROR")
Reports (FramaCResponse.killed id) d (some (err e)) =
    (e ≡ command_failed "KILLED" id (frama_c_mcp.Wire.Error.CommandMessage.killed id) d)
    × (d.final_result ≡ some "KILLED")
    × (d.cancellation_result ≡ some "killed")
Reports (FramaCResponse.rejected id) d (some (err e)) =
    (e ≡ command_failed "REJECTED" id (frama_c_mcp.Wire.Error.CommandMessage.rejected id) d)
    × (d.final_result ≡ some "REJECTED")
    × (d.rejected_command_id ≡ some id)
Reports _ d (some _) = ⊥

module _ (id : String) (elapsed : ℕ) (d : FramaCRequestDiagnostics) where
  -- A response ends the request exactly when it is DATA, ERROR, KILLED or REJECTED under its id.
  pub terminal_outcome_iff :
      (r : FramaCResponse) → ((terminal_outcome r id elapsed d).1 ≢ none) ↔ Concludes id r
  unfolding terminal_outcome
  terminal_outcome_iff (data_of other v) =
      (λ h. ground (arith, =ˢ_iff other id), λ h. ground (arith, =ˢ_iff other id))
  terminal_outcome_iff (error other msg) =
      (λ h. ground (arith, =ˢ_iff other id), λ h. ground (arith, =ˢ_iff other id))
  terminal_outcome_iff (FramaCResponse.killed other) =
      (λ h. ground (arith, =ˢ_iff other id), λ h. ground (arith, =ˢ_iff other id))
  terminal_outcome_iff (FramaCResponse.rejected other) =
      (λ h. ground (arith, =ˢ_iff other id), λ h. ground (arith, =ˢ_iff other id))
  terminal_outcome_iff (signal other) = (λ h. h refl, λ h. elim h [ ])
  terminal_outcome_iff cmd_line_on = (λ h. h refl, λ h. elim h [ ])
  terminal_outcome_iff cmd_line_off = (λ h. h refl, λ h. elim h [ ])

  -- The answer carries the payload or the failure of that very response, with the diagnostics as they
  -- were recorded for it.
  pub terminal_outcome-Reports :
      (r : FramaCResponse)
      → Reports r (terminal_outcome r id elapsed d).0 (terminal_outcome r id elapsed d).1
  unfolding terminal_outcome
  terminal_outcome-Reports (data_of other v) = elim (Bool-cases (other =ˢ id)) [
    | inl e ↦ rw e (refl, refl, refl)
    | inr e ↦ rw e tt
  ]
  terminal_outcome-Reports (error other msg) = elim (Bool-cases (other =ˢ id)) [
    | inl e ↦ rw e (refl, refl)
    | inr e ↦ rw e tt
  ]
  terminal_outcome-Reports (FramaCResponse.killed other) = elim (Bool-cases (other =ˢ id)) [
    | inl e ↦ rw e (refl, refl, refl)
    | inr e ↦ rw e tt
  ]
  terminal_outcome-Reports (FramaCResponse.rejected other) = elim (Bool-cases (other =ˢ id)) [
    | inl e ↦ rw e (refl, refl, refl)
    | inr e ↦ rw e tt
  ]
  terminal_outcome-Reports (signal other) = tt
  terminal_outcome-Reports cmd_line_on = tt
  terminal_outcome-Reports cmd_line_off = tt

-- A DATA response of this request with this payload is among the answers.
abbrev pub HasData : String → Value → List PollTurn → Type 0
HasData id v [] = ⊥
HasData id v (turn ∷ turns) = (turn.reply ≡ ok (some (data_of id v))) ⊎ HasData id v turns

settle_or-ne-none :
    (rest : FramaCRequestDiagnostics → Settled) (o : FramaCRequestDiagnostics × Settled)
    → ((d : FramaCRequestDiagnostics) → rest d ≢ none)
    → settle_or rest o ≢ none
settle_or-ne-none rest (d, none) h = h d
settle_or-ne-none rest (d, some r) h = λ e. cc

on_reply-ne-none :
    (rest : FramaCRequestDiagnostics → Settled) (id : String) (elapsed : ℕ)
    (d : FramaCRequestDiagnostics) (reply : Result FramaCError (Option FramaCResponse))
    → ((d : FramaCRequestDiagnostics) → rest d ≢ none)
    → on_reply rest id elapsed d reply ≢ none
on_reply-ne-none rest id elapsed d (err e) h = λ e. cc
on_reply-ne-none rest id elapsed d (ok none) h = h d
on_reply-ne-none rest id elapsed d (ok (some r)) h =
    settle_or-ne-none rest (terminal_outcome r id elapsed d) h

-- Success comes from DATA under the request's own id, and from no other response.
terminal_outcome-ok :
    (id : String) (elapsed : ℕ) (d : FramaCRequestDiagnostics) (r : FramaCResponse)
    {res : FramaCExecResult}
    → (terminal_outcome r id elapsed d).1 ≡ some (ok res)
    → r ≡ data_of id res.payload
unfolding terminal_outcome
terminal_outcome-ok id elapsed d (data_of other v) h = ground (arith, =ˢ_iff other id)
terminal_outcome-ok id elapsed d (error other msg) h = ground arith
terminal_outcome-ok id elapsed d (FramaCResponse.killed other) h = ground arith
terminal_outcome-ok id elapsed d (FramaCResponse.rejected other) h = ground arith
terminal_outcome-ok id elapsed d _ h = cc

-- the two ways in which one answer leads to success
abbrev Succeeds :
    (FramaCRequestDiagnostics → Settled)
    → String
    → FramaCExecResult
    → Result FramaCError (Option FramaCResponse)
    → Type 0
Succeeds rest id res reply =
    (reply ≡ ok (some (data_of id res.payload)))
    ⊎ ((d : FramaCRequestDiagnostics) × (rest d ≡ some (ok res)))

settle_or-ok :
    (rest : FramaCRequestDiagnostics → Settled) (id : String) (res : FramaCExecResult)
    (r : FramaCResponse) (o : FramaCRequestDiagnostics × Settled)
    → (o.1 ≡ some (ok res) → r ≡ data_of id res.payload)
    → settle_or rest o ≡ some (ok res)
    → Succeeds rest id res (ok (some r))
settle_or-ok rest id res r (d, none) from e = inr (d, e)
settle_or-ok rest id res r (d, some x) from e =
    inl (ap (λ (t : FramaCResponse). ok (some t)) (from e))

on_reply-ok :
    (rest : FramaCRequestDiagnostics → Settled) (id : String) (elapsed : ℕ)
    (d : FramaCRequestDiagnostics) (res : FramaCExecResult)
    (reply : Result FramaCError (Option FramaCResponse))
    → on_reply rest id elapsed d reply ≡ some (ok res)
    → Succeeds rest id res reply
on_reply-ok rest id elapsed d res (err x) e = absurd (cc)
on_reply-ok rest id elapsed d res (ok none) e = inr (d, e)
on_reply-ok rest id elapsed d res (ok (some r)) e =
    settle_or-ok rest id res r (terminal_outcome r id elapsed d)
      (λ h. terminal_outcome-ok id elapsed d r {res = res} h) e

module _ (render : Rendering) (id : String) (timeout_ms deadline : ℕ) where
  polling_ends :
      (before : List PollTurn) (turn : PollTurn) (after : List PollTurn)
      (d : FramaCRequestDiagnostics)
      → deadline ≤ turn.now
      → polling render id timeout_ms deadline (before ++ turn ∷ after) d ≢ none
  unfolding polling
  polling_ends [] turn after d h = ground arith
  polling_ends (t ∷ before) turn after d h = ground (
    arith,
    on_reply-ne-none (polling render id timeout_ms deadline (before ++ turn ∷ after)) id t.elapsed d
        t.reply (λ d'. polling_ends before turn after d' h),
  )

  polling-HasData :
      (turns : List PollTurn) (d : FramaCRequestDiagnostics) {res : FramaCExecResult}
      → polling render id timeout_ms deadline turns d ≡ some (ok res)
      → HasData id res.payload turns
  unfolding polling give_up
  polling-HasData [] d e = cc
  polling-HasData (turn ∷ turns) d {res} e =
      let rest = polling render id timeout_ms deadline turns in
      let answered : on_reply rest id turn.elapsed d turn.reply ≡ some (ok res) = ground arith in
      elim (on_reply-ok rest id turn.elapsed d res turn.reply answered) [
        | inl now ↦ inl now
        | inr (d', later) ↦ inr (polling-HasData turns d' later)
      ]

  -- A SET or EXEC does not outlast its deadline: once a round of polling begins there, it has an
  -- answer or has failed.
  pub poll_loop_ends :
      (request : String) (early : ℕ) (first : Result FramaCError (Option FramaCResponse))
      (before : List PollTurn) (turn : PollTurn) (after : List PollTurn)
      → deadline ≤ turn.now
      → poll_loop render id request timeout_ms deadline early first (before ++ turn ∷ after) ≢ none
  unfolding poll_loop
  poll_loop_ends request early first before turn after h =
      on_reply-ne-none (polling render id timeout_ms deadline (before ++ turn ∷ after)) id early
        (no_diagnostics id request) first (λ d. polling_ends before turn after d h)

  -- What a SET or EXEC returns is the payload of a DATA response under its own id, the first answer or
  -- one to a POLL: no answer of another request is taken for it.
  pub poll_loop-HasData :
      (request : String) (early : ℕ) (first : Result FramaCError (Option FramaCResponse))
      (turns : List PollTurn) {res : FramaCExecResult}
      → poll_loop render id request timeout_ms deadline early first turns ≡ some (ok res)
      → (first ≡ ok (some (data_of id res.payload))) ⊎ HasData id res.payload turns
  unfolding poll_loop
  poll_loop-HasData request early first turns {res} e =
      let rest = polling render id timeout_ms deadline turns in
      elim (on_reply-ok rest id early (no_diagnostics id request) res first e) [
        | inl now ↦ inl now
        | inr (d, later) ↦ inr (polling-HasData turns d later)
      ]
