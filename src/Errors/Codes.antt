-- ===== src/Errors/Codes.antt =====
-- `ErrorCode` of include/ai_pipe/error.hpp: the codes, their numbers and their names.
pub mod Unique
use Prim.Native.String.{String}
use ai_pipe.Prelude.{false, nat_eq, string_eq, ℕ, ◌≡◌, ◌↔◌, refl, sym, ap, ◌∙◌, some, List, [], ◌∷◌}
use ai_pipe.Prelude.Maps.{lookup}

pub data ErrorCode : Type 0 where
  ok : ErrorCode
  internal_error : ErrorCode
  invalid_argument : ErrorCode
  invalid_state : ErrorCode
  not_initialized : ErrorCode
  already_initialized : ErrorCode
  graph_cycle_detected : ErrorCode
  graph_empty : ErrorCode
  invalid_configuration : ErrorCode
  already_running : ErrorCode
  execution_failed : ErrorCode
  execution_timeout : ErrorCode
  execution_stopped : ErrorCode
  execution_aborted : ErrorCode
  streaming_not_supported : ErrorCode
  not_streaming : ErrorCode
  queue_rejected : ErrorCode
  queue_full : ErrorCode
  node_not_found : ErrorCode
  port_not_found : ErrorCode
  no_downstream_connection : ErrorCode
  end_of_stream_signaled : ErrorCode
  node_exception : ErrorCode
  node_unknown_exception : ErrorCode
  input_unavailable : ErrorCode
  plugin_load_failed : ErrorCode
  plugin_symbol_missing : ErrorCode
  plugin_version_mismatch : ErrorCode
  plugin_in_use : ErrorCode

-- The numbers that the enumeration gives.
unfoldable pub error_number : ErrorCode → ℕ
error_number ok = 0
error_number internal_error = 1
error_number invalid_argument = 100
error_number invalid_state = 101
error_number not_initialized = 102
error_number already_initialized = 103
error_number graph_cycle_detected = 104
error_number graph_empty = 105
error_number invalid_configuration = 106
error_number already_running = 200
error_number execution_failed = 201
error_number execution_timeout = 202
error_number execution_stopped = 203
error_number execution_aborted = 204
error_number streaming_not_supported = 300
error_number not_streaming = 301
error_number queue_rejected = 302
error_number queue_full = 303
error_number node_not_found = 304
error_number port_not_found = 305
error_number no_downstream_connection = 306
error_number end_of_stream_signaled = 307
error_number node_exception = 400
error_number node_unknown_exception = 401
error_number input_unavailable = 402
error_number plugin_load_failed = 500
error_number plugin_symbol_missing = 501
error_number plugin_version_mismatch = 502
error_number plugin_in_use = 503

unfoldable pub error_code_to_string : ErrorCode → String
error_code_to_string ok = "Ok"
error_code_to_string internal_error = "InternalError"
error_code_to_string invalid_argument = "InvalidArgument"
error_code_to_string invalid_state = "InvalidState"
error_code_to_string not_initialized = "NotInitialized"
error_code_to_string already_initialized = "AlreadyInitialized"
error_code_to_string graph_cycle_detected = "GraphCycleDetected"
error_code_to_string graph_empty = "GraphEmpty"
error_code_to_string invalid_configuration = "InvalidConfiguration"
error_code_to_string already_running = "AlreadyRunning"
error_code_to_string execution_failed = "ExecutionFailed"
error_code_to_string execution_timeout = "ExecutionTimeout"
error_code_to_string execution_stopped = "ExecutionStopped"
error_code_to_string execution_aborted = "ExecutionAborted"
error_code_to_string streaming_not_supported = "StreamingNotSupported"
error_code_to_string not_streaming = "NotStreaming"
error_code_to_string queue_rejected = "QueueRejected"
error_code_to_string queue_full = "QueueFull"
error_code_to_string node_not_found = "NodeNotFound"
error_code_to_string port_not_found = "PortNotFound"
error_code_to_string no_downstream_connection = "NoDownstreamConnection"
error_code_to_string end_of_stream_signaled = "EndOfStreamSignaled"
error_code_to_string node_exception = "NodeException"
error_code_to_string node_unknown_exception = "NodeUnknownException"
error_code_to_string input_unavailable = "InputUnavailable"
error_code_to_string plugin_load_failed = "PluginLoadFailed"
error_code_to_string plugin_symbol_missing = "PluginSymbolMissing"
error_code_to_string plugin_version_mismatch = "PluginVersionMismatch"
error_code_to_string plugin_in_use = "PluginInUse"
