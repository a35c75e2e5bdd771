-- ===== src/Errors.antt =====
-- `Error` of include/ai_pipe/error.hpp. Of it and of the codes, `Result<T>` and `Result<void>` are made.
pub mod Codes
pub mod Results
mod Tests
use Prim.Native.String.{String, ◌++◌ as ◌+++◌}
use ai_pipe.Prelude.{Bool, not, ◌≡◌, eqb, string_eq, if◌then◌else◌}
use ai_pipe.Errors.Codes.{
  ErrorCode, ok, invalid_argument, invalid_state, not_initialized, already_running,
  execution_failed, node_exception, node_not_found, port_not_found, error_number,
  error_code_to_string,
}

pub record Error : Type 0 where
  pub code : ErrorCode
  pub message : String
  pub node_name : String

-- The constructors: with what is not given empty.
unfoldable pub no_error : Error
no_error = record { code = ok; message = ""; node_name = "" }

unfoldable pub error_of : ErrorCode → String → String → Error
error_of code message node_name = record { code = code; message = message; node_name = node_name }

-- Codes are compared as their numbers.
unfoldable pub has_code : Error → ErrorCode → Bool
has_code e code = eqb (error_number e.code) (error_number code)

unfoldable pub is_ok : Error → Bool
is_ok e = has_code e ok

-- `operator bool`: there is an error.
pub is_error : Error → Bool
is_error e = not (is_ok e)

pub to_string : Error → String
to_string e =
    let name = error_code_to_string e.code in
    let with_message =
      if string_eq.same e.message "" then name else name +++ (": " +++ e.message) in
    if string_eq.same e.node_name ""
    then with_message
    else with_message +++ ((" [node: " +++ e.node_name) +++ "]")

-- The factories.
pub invalid_argument_error : String → Error
invalid_argument_error msg = error_of invalid_argument msg ""

pub invalid_state_error : String → Error
invalid_state_error msg = error_of invalid_state msg ""

pub not_initialized_error : String → Error
not_initialized_error msg = error_of not_initialized msg ""

pub already_running_error : String → Error
already_running_error msg = error_of already_running msg ""

pub execution_failed_error : String → String → Error
execution_failed_error msg node = error_of execution_failed msg node

pub node_exception_error : String → String → Error
node_exception_error msg node = error_of node_exception msg node

unfoldable pub node_not_found_error : String → Error
node_not_found_error node_name = error_of node_not_found ("Unknown node: " +++ node_name) node_name

unfoldable pub port_not_found_error : String → String → Error
port_not_found_error port_name node_name =
    error_of port_not_found ((("Port '" +++ port_name) +++ "' not found on node: ") +++ node_name)
      node_name
