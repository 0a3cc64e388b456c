-- ===== src/Wire/Message.antt =====
-- Commands and responses (src/frama-c/codec.rs) over JSON values. The JSON printer and parser are
-- serde_json's, so they are arguments: `to_string` and `from_str`.
pub mod Laws
use frama_c_mcp.Prelude.{
  ℕ, String, Option, none, some, List, [], ◌∷◌, Result, ok, err, ◌=ˢ◌, if◌then◌else◌,
}
use frama_c_mcp.Json.{
  Value, null, string, object, obj, find_field, as_str, as_object, and_then, unwrap_or, Fields,
}
use frama_c_mcp.Wire.Error.{
  FramaCError, json, unexpected_response, unknown_string, unknown_res, not_string_or_object,
}

pub data FramaCCommand : Type 0 where
  get set exec : String → String → Value → FramaCCommand
  poll shutdown : FramaCCommand
  kill sig_on sig_off : String → FramaCCommand

pub data FramaCResponse : Type 0 where
  data_of : String → Value → FramaCResponse
  error : String → String → FramaCResponse
  signal rejected killed : String → FramaCResponse
  cmd_line_on cmd_line_off : FramaCResponse

abbrev request_object : String → String → String → Value → Value
request_object cmd id request payload =
    obj (
      ("cmd", string cmd)
      ∷ ("id", string id)
      ∷ ("request", string request)
      ∷ ("data", payload)
      ∷ [])

abbrev id_object : String → String → Value
id_object cmd id = obj (("cmd", string cmd) ∷ ("id", string id) ∷ [])

-- the JSON value of a command; POLL and SHUTDOWN are string literals
unfoldable pub command_value : FramaCCommand → Value
command_value (get id request payload) = request_object "GET" id request payload
command_value (set id request payload) = request_object "SET" id request payload
command_value (exec id request payload) = request_object "EXEC" id request payload
command_value poll = string "POLL"
command_value shutdown = string "SHUTDOWN"
command_value (kill id) = id_object "KILL" id
command_value (sig_on id) = id_object "SIGON" id
command_value (sig_off id) = id_object "SIGOFF" id

unfoldable pub encode_command : (Value → List ℕ) → FramaCCommand → List ℕ
unfolding command_value
encode_command to_string cmd = to_string (command_value cmd)

-- `obj.get(key).and_then(as_str).unwrap_or_default()`
abbrev pub text_field : String → Fields → String
text_field key fields = unwrap_or (and_then (find_field key fields) as_str) ""

decode_object : Fields → Result FramaCError FramaCResponse
decode_object fields =
    let res = text_field "res" fields in
    let id = text_field "id" fields in
    if res =ˢ "DATA"
    then ok (data_of id (unwrap_or (find_field "data" fields) null))
    else if res =ˢ "ERROR"
    then ok (error id (text_field "msg" fields))
    else if res =ˢ "SIGNAL"
    then ok (signal id)
    else if res =ˢ "REJECTED"
    then ok (rejected id)
    else if res =ˢ "KILLED"
    then ok (killed id)
    else err (unexpected_response (unknown_res res))

decode_string : String → Result FramaCError FramaCResponse
decode_string s =
    if s =ˢ "CMDLINEON"
    then ok cmd_line_on
    else if s =ˢ "CMDLINEOFF"
    then ok cmd_line_off
    else err (unexpected_response (unknown_string s))

unfoldable pub decode_value : Value → Result FramaCError FramaCResponse
unfolding decode_object decode_string
decode_value (string s) = decode_string s
decode_value (object fields) = decode_object fields
decode_value _ = err (unexpected_response not_string_or_object)

unfoldable pub decode_response :
    (List ℕ → Option Value) → List ℕ → Result FramaCError FramaCResponse
unfolding decode_value
decode_response from_str text = elim (from_str text) [ none ↦ err json | some v ↦ decode_value v ]
