-- ===== src/Errors/Codes/Unique.antt =====
-- The numbers and the names of the error codes of include/ai_pipe/error.hpp tell them apart.
use Prim.Native.String.{String}
use ai_pipe.Prelude.{false, nat_eq, string_eq, ℕ, ◌≡◌, ◌↔◌, refl, sym, ap, ◌∙◌, some, List, [], ◌∷◌}
use ai_pipe.Prelude.Maps.{lookup}
use ai_pipe.Errors.Codes.{
  ErrorCode, already_initialized, already_running, end_of_stream_signaled, error_code_to_string,
  error_number, execution_aborted, execution_failed, execution_stopped, execution_timeout,
  graph_cycle_detected, graph_empty, input_unavailable, internal_error, invalid_argument,
  invalid_configuration, invalid_state, no_downstream_connection, node_exception, node_not_found,
  node_unknown_exception, not_initialized, not_streaming, ok, plugin_in_use, plugin_load_failed,
  plugin_symbol_missing, plugin_version_mismatch, port_not_found, queue_full, queue_rejected,
  streaming_not_supported,
}

abbrev code_of_number : List (ℕ × ErrorCode)
code_of_number =
    (0, ok)
    ∷ (1, internal_error)
    ∷ (100, invalid_argument)
    ∷ (101, invalid_state)
    ∷ (102, not_initialized)
    ∷ (103, already_initialized)
    ∷ (104, graph_cycle_detected)
    ∷ (105, graph_empty)
    ∷ (106, invalid_configuration)
    ∷ (200, already_running)
    ∷ (201, execution_failed)
    ∷ (202, execution_timeout)
    ∷ (203, execution_stopped)
    ∷ (204, execution_aborted)
    ∷ (300, streaming_not_supported)
    ∷ (301, not_streaming)
    ∷ (302, queue_rejected)
    ∷ (303, queue_full)
    ∷ (304, node_not_found)
    ∷ (305, port_not_found)
    ∷ (306, no_downstream_connection)
    ∷ (307, end_of_stream_signaled)
    ∷ (400, node_exception)
    ∷ (401, node_unknown_exception)
    ∷ (402, input_unavailable)
    ∷ (500, plugin_load_failed)
    ∷ (501, plugin_symbol_missing)
    ∷ (502, plugin_version_mismatch)
    ∷ (503, plugin_in_use)
    ∷ []

abbrev code_of_name : List (String × ErrorCode)
code_of_name =
    ("Ok", ok)
    ∷ ("InternalError", internal_error)
    ∷ ("InvalidArgument", invalid_argument)
    ∷ ("InvalidState", invalid_state)
    ∷ ("NotInitialized", not_initialized)
    ∷ ("AlreadyInitialized", already_initialized)
    ∷ ("GraphCycleDetected", graph_cycle_detected)
    ∷ ("GraphEmpty", graph_empty)
    ∷ ("InvalidConfiguration", invalid_configuration)
    ∷ ("AlreadyRunning", already_running)
    ∷ ("ExecutionFailed", execution_failed)
    ∷ ("ExecutionTimeout", execution_timeout)
    ∷ ("ExecutionStopped", execution_stopped)
    ∷ ("ExecutionAborted", execution_aborted)
    ∷ ("StreamingNotSupported", streaming_not_supported)
    ∷ ("NotStreaming", not_streaming)
    ∷ ("QueueRejected", queue_rejected)
    ∷ ("QueueFull", queue_full)
    ∷ ("NodeNotFound", node_not_found)
    ∷ ("PortNotFound", port_not_found)
    ∷ ("NoDownstreamConnection", no_downstream_connection)
    ∷ ("EndOfStreamSignaled", end_of_stream_signaled)
    ∷ ("NodeException", node_exception)
    ∷ ("NodeUnknownException", node_unknown_exception)
    ∷ ("InputUnavailable", input_unavailable)
    ∷ ("PluginLoadFailed", plugin_load_failed)
    ∷ ("PluginSymbolMissing", plugin_symbol_missing)
    ∷ ("PluginVersionMismatch", plugin_version_mismatch)
    ∷ ("PluginInUse", plugin_in_use)
    ∷ []

lookup-number : (c : ErrorCode) → lookup (error_number c) code_of_number ≡ some c
unfolding error_number lookup
lookup-number ok = refl
lookup-number internal_error = refl
lookup-number invalid_argument = refl
lookup-number invalid_state = refl
lookup-number not_initialized = refl
lookup-number already_initialized = refl
lookup-number graph_cycle_detected = refl
lookup-number graph_empty = refl
lookup-number invalid_configuration = refl
lookup-number already_running = refl
lookup-number execution_failed = refl
lookup-number execution_timeout = refl
lookup-number execution_stopped = refl
lookup-number execution_aborted = refl
lookup-number streaming_not_supported = refl
lookup-number not_streaming = refl
lookup-number queue_rejected = refl
lookup-number queue_full = refl
lookup-number node_not_found = refl
lookup-number port_not_found = refl
lookup-number no_downstream_connection = refl
lookup-number end_of_stream_signaled = refl
lookup-number node_exception = refl
lookup-number node_unknown_exception = refl
lookup-number input_unavailable = refl
lookup-number plugin_load_failed = refl
lookup-number plugin_symbol_missing = refl
lookup-number plugin_version_mismatch = refl
lookup-number plugin_in_use = refl

lookup-name : (c : ErrorCode) → lookup (error_code_to_string c) code_of_name ≡ some c
unfolding error_code_to_string lookup
lookup-name ok = refl
lookup-name internal_error = refl
lookup-name invalid_argument = refl
lookup-name invalid_state = refl
lookup-name not_initialized = refl
lookup-name already_initialized = refl
lookup-name graph_cycle_detected = refl
lookup-name graph_empty = refl
lookup-name invalid_configuration = refl
lookup-name already_running = refl
lookup-name execution_failed = refl
lookup-name execution_timeout = refl
lookup-name execution_stopped = refl
lookup-name execution_aborted = refl
lookup-name streaming_not_supported = refl
lookup-name not_streaming = refl
lookup-name queue_rejected = refl
lookup-name queue_full = refl
lookup-name node_not_found = refl
lookup-name port_not_found = refl
lookup-name no_downstream_connection = refl
lookup-name end_of_stream_signaled = refl
lookup-name node_exception = refl
lookup-name node_unknown_exception = refl
lookup-name input_unavailable = refl
lookup-name plugin_load_failed = refl
lookup-name plugin_symbol_missing = refl
lookup-name plugin_version_mismatch = refl
lookup-name plugin_in_use = refl

pub error_code_to_string-ne : (c : ErrorCode) → string_eq.same (error_code_to_string c) "" ≡ false
unfolding error_code_to_string
error_code_to_string-ne ok = refl
error_code_to_string-ne internal_error = refl
error_code_to_string-ne invalid_argument = refl
error_code_to_string-ne invalid_state = refl
error_code_to_string-ne not_initialized = refl
error_code_to_string-ne already_initialized = refl
error_code_to_string-ne graph_cycle_detected = refl
error_code_to_string-ne graph_empty = refl
error_code_to_string-ne invalid_configuration = refl
error_code_to_string-ne already_running = refl
error_code_to_string-ne execution_failed = refl
error_code_to_string-ne execution_timeout = refl
error_code_to_string-ne execution_stopped = refl
error_code_to_string-ne execution_aborted = refl
error_code_to_string-ne streaming_not_supported = refl
error_code_to_string-ne not_streaming = refl
error_code_to_string-ne queue_rejected = refl
error_code_to_string-ne queue_full = refl
error_code_to_string-ne node_not_found = refl
error_code_to_string-ne port_not_found = refl
error_code_to_string-ne no_downstream_connection = refl
error_code_to_string-ne end_of_stream_signaled = refl
error_code_to_string-ne node_exception = refl
error_code_to_string-ne node_unknown_exception = refl
error_code_to_string-ne input_unavailable = refl
error_code_to_string-ne plugin_load_failed = refl
error_code_to_string-ne plugin_symbol_missing = refl
error_code_to_string-ne plugin_version_mismatch = refl
error_code_to_string-ne plugin_in_use = refl

-- Two codes with one number, or with one name, are the same code.
pub code_unique :
    (c d : ErrorCode)
    → ((error_number c ≡ error_number d) ↔ (c ≡ d))
      × ((error_code_to_string c ≡ error_code_to_string d) ↔ (c ≡ d))
code_unique c d = (
  (
    λ h.
        let found : some c ≡ some d =
          sym (lookup-number c) ∙ ap (λ n. lookup n code_of_number) h ∙ lookup-number d in
        cc,
    λ e. ap error_number e,
  ),
  (
    λ h.
        let found : some c ≡ some d =
          sym (lookup-name c) ∙ ap (λ n. lookup n code_of_name) h ∙ lookup-name d in
        cc,
    λ e. ap error_code_to_string e,
  ),
)
