-- ===== src/Wire/Message/Laws.antt =====
-- What a response can be read from, and what a command can be told from.
use frama_c_mcp.Prelude.{
  ℕ, String, ◌≡◌, refl, Bool, true, false, sym, ap, ◌∙◌, Option, none, some, List, ok, arith, ◌=ˢ◌,
  =ˢ_iff, ◌↔◌, if◌then◌else◌,
}
use frama_c_mcp.Json.{Value, string, object, null, find_field, and_then, unwrap_or, Fields}
use frama_c_mcp.Wire.Message.{
  FramaCCommand, get, set, exec, poll, shutdown, kill, sig_on, sig_off, FramaCResponse, data_of,
  error, signal, rejected, killed, cmd_line_on, cmd_line_off, command_value, encode_command,
  decode_value, decode_object, decode_string, text_field,
}

-- The shape of a document that reads as a given response.
abbrev pub Spells : FramaCResponse → Value → Type 0
Spells cmd_line_on (string s) = s ≡ "CMDLINEON"
Spells cmd_line_off (string s) = s ≡ "CMDLINEOFF"
Spells (data_of id v) (object fs) =
    (text_field "res" fs ≡ "DATA")
    × (text_field "id" fs ≡ id)
    × (unwrap_or (find_field "data" fs) null ≡ v)
Spells (error id msg) (object fs) =
    (text_field "res" fs ≡ "ERROR") × (text_field "id" fs ≡ id) × (text_field "msg" fs ≡ msg)
Spells (signal id) (object fs) = (text_field "res" fs ≡ "SIGNAL") × (text_field "id" fs ≡ id)
Spells (rejected id) (object fs) = (text_field "res" fs ≡ "REJECTED") × (text_field "id" fs ≡ id)
Spells (killed id) (object fs) = (text_field "res" fs ≡ "KILLED") × (text_field "id" fs ≡ id)
Spells _ _ = ⊥

module _ (fs : Fields) where
  abbrev res : String
  res = text_field "res" fs

  decode_object-Spells : (r : FramaCResponse) → decode_object fs ≡ ok r → Spells r (object fs)
  unfolding decode_object
  decode_object-Spells (data_of id v) h = ground (
    arith,
    =ˢ_iff res "DATA",
    =ˢ_iff res "ERROR",
    =ˢ_iff res "SIGNAL",
    =ˢ_iff res "REJECTED",
    =ˢ_iff res "KILLED",
  )
  decode_object-Spells r h = ground (
    arith,
    =ˢ_iff res "DATA",
    =ˢ_iff res "ERROR",
    =ˢ_iff res "SIGNAL",
    =ˢ_iff res "REJECTED",
    =ˢ_iff res "KILLED",
  )

  Spells-decode_object : (r : FramaCResponse) → Spells r (object fs) → decode_object fs ≡ ok r
  unfolding decode_object
  Spells-decode_object (data_of id v) h = rw h.0 (ground arith)
  Spells-decode_object (error id msg) h = rw h.0 (ground arith)
  Spells-decode_object (signal id) h = rw h.0 (ground arith)
  Spells-decode_object (rejected id) h = rw h.0 (ground arith)
  Spells-decode_object (killed id) h = rw h.0 (ground arith)
  Spells-decode_object cmd_line_on h = elim h [ ]
  Spells-decode_object cmd_line_off h = elim h [ ]

module _ (s : String) where
  decode_string-Spells : (r : FramaCResponse) → decode_string s ≡ ok r → Spells r (string s)
  unfolding decode_string
  decode_string-Spells cmd_line_on h = ground (arith, =ˢ_iff s "CMDLINEON", =ˢ_iff s "CMDLINEOFF")
  decode_string-Spells r h = ground (arith, =ˢ_iff s "CMDLINEON", =ˢ_iff s "CMDLINEOFF")

  Spells-decode_string : (r : FramaCResponse) → Spells r (string s) → decode_string s ≡ ok r
  unfolding decode_string
  Spells-decode_string cmd_line_on h = rw h
  Spells-decode_string cmd_line_off h = rw h
  Spells-decode_string (data_of id v) h = elim h [ ]
  Spells-decode_string _ h = elim h [ ]

abbrev is_shaped : Value → Bool
is_shaped (string s) = true
is_shaped (object fs) = true
is_shaped _ = false

no_other_shape : (r : FramaCResponse) (v : Value) → is_shaped v ≡ false → Spells r v → ⊥
no_other_shape r (string s) e h = cc
no_other_shape r (object fs) e h = cc
no_other_shape cmd_line_on v e h = h
no_other_shape _ v e h = h

-- A document reads as a response exactly when it spells it: the two bare strings, or an object whose
-- `res` names the kind, with the fields of that kind and the defaults for those that are missing.
pub decode_value_iff : (v : Value) (r : FramaCResponse) → (decode_value v ≡ ok r) ↔ Spells r v
unfolding decode_value
decode_value_iff (string s) r = (decode_string-Spells s r, Spells-decode_string s r)
decode_value_iff (object fs) r = (decode_object-Spells fs r, Spells-decode_object fs r)
decode_value_iff v r = (λ e. cc, λ h. absurd (no_other_shape r v refl h))

-- An independent reader of commands.
abbrev read_request : (String → String → Value → FramaCCommand) → Fields → Option FramaCCommand
read_request make fs =
    some
      (make (text_field "id" fs) (text_field "request" fs) (unwrap_or (find_field "data" fs) null))

read_command : Value → Option FramaCCommand
read_command (string s) = if s =ˢ "POLL" then some poll else some shutdown
read_command (object fs) =
    let cmd = text_field "cmd" fs in
    if cmd =ˢ "GET"
    then read_request get fs
    else if cmd =ˢ "SET"
    then read_request set fs
    else if cmd =ˢ "EXEC"
    then read_request exec fs
    else if cmd =ˢ "KILL"
    then some (kill (text_field "id" fs))
    else if cmd =ˢ "SIGON"
    then some (sig_on (text_field "id" fs))
    else some (sig_off (text_field "id" fs))
read_command _ = none

read_command-command_value : (c : FramaCCommand) → read_command (command_value c) ≡ some c
unfolding read_command command_value find_field
read_command-command_value (get id request payload) = refl
read_command-command_value _ = refl

-- Two commands with the same text on the wire are the same command, request id and payload included,
-- when the JSON parser reads back what the printer wrote.
encode_command_injective :
    (to_string : Value → List ℕ) (from_str : List ℕ → Option Value)
    → ((v : Value) → from_str (to_string v) ≡ some v)
    → (c d : FramaCCommand) → encode_command to_string c ≡ encode_command to_string d
    → c ≡ d
unfolding encode_command
encode_command_injective to_string from_str reads_back c d h =
    let same = sym (reads_back (command_value c)) ∙ ap from_str h ∙ reads_back (command_value d) in
    cc (
      ap (λ o. and_then o read_command) same,
      read_command-command_value c,
      read_command-command_value d,
    )
