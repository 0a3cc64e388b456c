-- ===== src/Wire/Error.antt =====
-- What a request over the link can fail with (src/error.rs, `FramaCError`). A formatted message is
-- kept as what it was formatted from.
use frama_c_mcp.Prelude.{ℕ, String, Option}
use frama_c_mcp.Wire.Codec.{FrameError}

pub record FramaCRequestDiagnostics : Type 0 where
  pub request_id : String
  pub request : String
  pub queued_task_id : Option String
  pub signal_count : ℕ  -- u64
  pub elapsed_ms : Option ℕ
  pub final_result : Option String
  pub cancellation_result : Option String
  pub rejected_command_id : Option String

-- the I/O errors that the link itself makes, and those of the operating system
pub data IoError : Type 0 where
  connection_closed poisoned_transport system : IoError

pub data Unexpected : Type 0 where
  unknown_string unknown_res : String → Unexpected
  not_string_or_object : Unexpected

-- The text of a failed command.
pub data CommandMessage : Type 0 where
  server : String → CommandMessage
  killed rejected : String → CommandMessage
  timeout_after : ℕ → CommandMessage

pub data FramaCError : Type 0 where
  io : IoError → FramaCError
  json : FramaCError
  invalid_frame : FrameError → FramaCError
  server_error : String → String → FramaCError
  rejected killed : String → FramaCError
  command_failed : String → String → CommandMessage → FramaCRequestDiagnostics → FramaCError
  connect_timeout : FramaCError
  timeout : ℕ → FramaCError
  unexpected_response : Unexpected → FramaCError
  function_not_found global_not_found symbol_not_found : String → FramaCError
