-- ===== src/Wire/Client/Wait.antt =====
-- A GET is answered by its own response, and by nothing else.
use frama_c_mcp.Prelude.{
  ℕ, ◌≤◌, ◌<◌, ◌≡◌, ◌≢◌, refl, sym, ap, ◌∙◌, String, none, some, List, [], ◌∷◌, ◌++◌, All, arith,
  ok, =ˢ_iff, =ˢ_refl, ◌↔◌, Option-cases, Answer-cases, inl, inr,
}
use frama_c_mcp.Json.{Value, or_else}
use frama_c_mcp.Wire.Message.{FramaCResponse, data_of, error}
use frama_c_mcp.Wire.Client.{Turn, get_outcome, wait_for_id}

-- The responses that a GET under this id has no use for: signals, command-line notices, the answers
-- of other requests, and a KILLED whatever its id.
abbrev IsNoise : String → FramaCResponse → Type 0
IsNoise id (data_of other v) = other ≢ id
IsNoise id (error other msg) = other ≢ id
IsNoise id (FramaCResponse.rejected other) = other ≢ id
IsNoise id _ = Unit

-- A round before the deadline whose response is noise.
pub record IsSkipped (id : String) (deadline : ℕ) (turn : Turn) : Type 0 where
  pub response : FramaCResponse
  pub in_time : turn.now < deadline
  pub reply_eq : turn.reply ≡ ok (some response)
  pub noise : IsNoise id response

-- Noise, and then the data of this request, all before the deadline.
pub record IsAnswered (id : String) (deadline : ℕ) (v : Value) (turns : List Turn) : Type 0 where
  pub before : List Turn
  pub turn : Turn
  pub after : List Turn
  pub split : turns ≡ before ++ turn ∷ after
  pub skipped : All (IsSkipped id deadline) before
  pub in_time : turn.now < deadline
  pub reply_eq : turn.reply ≡ ok (some (data_of id v))

get_outcome-IsNoise : (id : String) (r : FramaCResponse) → IsNoise id r → get_outcome id r ≡ none
unfolding get_outcome
get_outcome-IsNoise id (data_of other v) n = ground (arith, =ˢ_iff other id)
get_outcome-IsNoise id (error other msg) n = ground (arith, =ˢ_iff other id)
get_outcome-IsNoise id (FramaCResponse.rejected other) n = ground (arith, =ˢ_iff other id)
get_outcome-IsNoise id _ n = refl

get_outcome-none-IsNoise :
    (id : String) (r : FramaCResponse) → get_outcome id r ≡ none → IsNoise id r
unfolding get_outcome
get_outcome-none-IsNoise id (data_of other v) e = ground (arith, =ˢ_iff other id)
get_outcome-none-IsNoise id (error other msg) e = ground (arith, =ˢ_iff other id)
get_outcome-none-IsNoise id (FramaCResponse.rejected other) e = ground (arith, =ˢ_iff other id)
get_outcome-none-IsNoise id _ e = tt

data_of_outcome :
    (id : String) (r : FramaCResponse) {v : Value}
    → get_outcome id r ≡ some (ok v)
    → r ≡ data_of id v
unfolding get_outcome
data_of_outcome id (data_of other w) e = ground (arith, =ˢ_iff other id)
data_of_outcome id (error other msg) e = ground arith
data_of_outcome id (FramaCResponse.rejected other) e = ground arith
data_of_outcome id _ e = cc

module _ (id : String) (timeout_ms deadline : ℕ) where
  -- one round in time that brings a response
  wait_for_id-response :
      (turn : Turn) (turns : List Turn) {r : FramaCResponse}
      → turn.now < deadline
      → turn.reply ≡ ok (some r)
      → wait_for_id id timeout_ms deadline (turn ∷ turns)
        ≡ or_else (get_outcome id r) (wait_for_id id timeout_ms deadline turns)
  unfolding wait_for_id
  wait_for_id-response turn turns h e = ground arith

  answered :
      (before : List Turn) (turn : Turn) (after : List Turn) {v : Value}
      → All (IsSkipped id deadline) before
      → turn.now < deadline
      → turn.reply ≡ ok (some (data_of id v))
      → wait_for_id id timeout_ms deadline (before ++ turn ∷ after) ≡ some (ok v)
  unfolding get_outcome
  answered [] turn after s h e = wait_for_id-response turn after h e ∙ simp =ˢ_refl
  answered (t ∷ before) turn after {v} (s, ss) h e =
      wait_for_id-response t (before ++ turn ∷ after) s.in_time s.reply_eq
      ∙ rw (get_outcome-IsNoise id s.response s.noise) (answered before turn after {v = v} ss h e)

  -- a round that did not end the wait with data, and what it was then
  round :
      (turn : Turn) (turns : List Turn) {v : Value}
      → wait_for_id id timeout_ms deadline (turn ∷ turns) ≡ some (ok v)
      → (turn.now < deadline) × ((r : FramaCResponse) × (turn.reply ≡ ok (some r)))
  unfolding wait_for_id
  round turn turns e = elim (Answer-cases turn.reply) [
    | inl silent ↦ absurd (ground arith)
    | inr (inl (r, q)) ↦ (ground arith, (r, q))
    | inr (inr (x, q)) ↦ absurd (ground arith)
  ]

  wait_for_id-IsAnswered :
      (turns : List Turn) {v : Value}
      → wait_for_id id timeout_ms deadline turns ≡ some (ok v)
      → IsAnswered id deadline v turns
  unfolding wait_for_id
  wait_for_id-IsAnswered [] e = cc
  wait_for_id-IsAnswered (turn ∷ turns) {v} e =
      let (in_time, (r, q)) = round turn turns e in
      let e' = sym (wait_for_id-response turn turns in_time q) ∙ e in
      elim (Option-cases (get_outcome id r)) [
        | inl skip ↦
            let a = wait_for_id-IsAnswered turns {v = v} (rw skip at e') in
            let noise = get_outcome-none-IsNoise id r skip in
            record {
              before = turn ∷ a.before;
              turn = a.turn;
              after = a.after;
              split = ap (λ t. turn ∷ t) a.split;
              skipped = (
                record { response = r; in_time = in_time; reply_eq = q; noise = noise },
                a.skipped,
              );
              in_time = a.in_time;
              reply_eq = a.reply_eq;
            }
        | inr (x, o) ↦
            let data_eq = data_of_outcome id r {v = v} (o ∙ (rw o at e')) in
            record {
              before = [];
              turn = turn;
              after = turns;
              split = refl;
              skipped = tt;
              in_time = in_time;
              reply_eq = q ∙ ap (λ (d : FramaCResponse). ok (some d)) data_eq;
            }
      ]

  -- A GET returns data exactly when a DATA response with its id comes before the deadline, behind
  -- nothing but noise.
  pub wait_for_id_iff :
      (turns : List Turn) (v : Value)
      → (wait_for_id id timeout_ms deadline turns ≡ some (ok v)) ↔ IsAnswered id deadline v turns
  wait_for_id_iff turns v = (
    wait_for_id-IsAnswered turns,
    λ a.
        ap (wait_for_id id timeout_ms deadline) a.split
        ∙ answered a.before a.turn a.after a.skipped a.in_time a.reply_eq,
  )

  -- A wait does not outlast its deadline: once a round begins there, it has ended.
  pub wait_for_id_ends :
      (before : List Turn) (turn : Turn) (after : List Turn)
      → deadline ≤ turn.now
      → wait_for_id id timeout_ms deadline (before ++ turn ∷ after) ≢ none
  unfolding wait_for_id
  wait_for_id_ends [] turn after h = ground arith
  wait_for_id_ends (t ∷ before) turn after h = ground (arith, wait_for_id_ends before turn after h)
