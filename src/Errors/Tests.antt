-- ===== src/Errors/Tests.antt =====
-- The theorems on error codes and results at concrete inputs.
use ai_pipe.Prelude.{◌≡◌, refl}
use ai_pipe.Errors.Codes.{error_code_to_string}
use ai_pipe.Errors.{error_of, to_string, node_not_found_error}

to_string_test :
    to_string (node_not_found_error "camera") ≡ "NodeNotFound: Unknown node: camera [node: camera]"
unfolding to_string node_not_found_error error_of error_code_to_string
to_string_test = refl
