-- ===== src/Engine/Ports.antt =====
-- The input ports of a node in src/execution_engine_impl.cpp: the latches for the end of the stream, and what the
-- scheduler is told of the ports. A queue is its size here, and a null pointer is `none`.
pub mod Latches
pub mod Readiness
mod Tests
use Prim.Native.String.{String, ◌++◌ as ◌+++◌}
use ai_pipe.Prelude.{
  ℕ, zero, suc, ◌+◌, Bool, true, false, not, ◌&&◌, ◌||◌, Option, none, some, List, [], ◌∷◌, eqb,
  ltb, leb, length, get_or, string_eq, ◌==◌, if◌then◌else◌,
}
use ai_pipe.Prelude.Flags.{has_flag, set_flag}
use ai_pipe.Errors.{Error, error_of, node_not_found_error, port_not_found_error}
use ai_pipe.Errors.Codes.{not_streaming, port_not_found, invalid_argument, end_of_stream_signaled}
use ai_pipe.Errors.Results.{VoidResult, void_ok, void_err}
use ai_pipe.Schedule.{Situation}

pub record NodePorts : Type 0 where
  pub input_ports : List String
  pub input_queues : List (Option ℕ)
  pub eos_mask : ℕ

abbrev pub k_max_eos_ports : ℕ
k_max_eos_ports = 64

abbrev pub holds_data : Option ℕ → Bool
holds_data none = false
holds_data (some size) = ltb 0 size

pub port_eos_latched : NodePorts → ℕ → Bool
port_eos_latched s i = if leb k_max_eos_ports i then false else has_flag s.eos_mask i

-- An index past the last queue is taken like a null pointer.
pub port_drained : NodePorts → ℕ → Bool
port_drained s i = port_eos_latched s i && not (holds_data (get_or s.input_queues i none))

-- The loop over the ports from `i` on.
pub drained_from : NodePorts → ℕ → List String → Bool
drained_from s i [] = true
drained_from s i (p ∷ ps) = port_drained s i && drained_from s (suc i) ps

pub all_input_ports_drained : NodePorts → Bool
all_input_ports_drained s = elim s.input_ports [ [] ↦ false | p ∷ ps ↦ drained_from s 0 (p ∷ ps) ]

pub some_drained : NodePorts → ℕ → List String → Bool
some_drained s i [] = false
some_drained s i (p ∷ ps) = port_drained s i || some_drained s (suc i) ps

pub has_partially_drained_inputs : NodePorts → Bool
has_partially_drained_inputs s =
    some_drained s 0 s.input_ports && not (drained_from s 0 s.input_ports)

-- `latchPortEos` up to the check that it ends with.
pub latch_port_eos : NodePorts → ℕ → NodePorts
latch_port_eos s i =
    if leb k_max_eos_ports i then s else record s { eos_mask = set_flag s.eos_mask i }

-- The index of the first port of that name, or the number of ports.
pub port_index : String → List String → ℕ
port_index port [] = 0
port_index port (p ∷ ps) = let rest = port_index port ps in if p == port then 0 else suc rest

-- The first port where no name is given.
pub actual_port : String → List String → String
actual_port name [] = name
actual_port name (p ∷ ps) = if string_eq.same name "" then p else name

-- The port with index `i`, if that is one.
pub close_port : NodePorts → String → String → ℕ → NodePorts × VoidResult
close_port s node port i =
    if eqb i (length s.input_ports)
    then (s, void_err (port_not_found_error port node))
    else if leb k_max_eos_ports i
    then (
      s,
      void_err (
          error_of invalid_argument ("Port index beyond the end-of-stream limit on: " +++ node)
            node),
    )
    else if has_flag s.eos_mask i
    then (
      s,
      void_err (error_of end_of_stream_signaled ("Port already at end of stream: " +++ port) node),
    )
    else (record s { eos_mask = set_flag s.eos_mask i }, void_ok)

-- `signalEndOfStream` up to the check that follows a success.
pub signal_port : NodePorts → String → String → NodePorts × VoidResult
signal_port s node name =
    let port = actual_port name s.input_ports in
    if eqb (length s.input_ports) 0
    then (s, void_err (error_of port_not_found ("Node has no input port to close: " +++ node) node))
    else close_port s node port (port_index port s.input_ports)

pub signal_end_of_stream : Bool → Option NodePorts → String → String → Option NodePorts × VoidResult
signal_end_of_stream streaming state node name =
    if streaming
    then elim state [
      | none ↦ (none, void_err (node_not_found_error node))
      | some s ↦ let done = signal_port s node name in (some done.0, done.1)
    ]
    else (state, void_err (error_of not_streaming "signalEndOfStream requires streaming mode" ""))

-- The loop of `tryScheduleNode` over the queues from `i` on: the ports that are not drained, and those of them that
-- hold data.
pub count_inputs : NodePorts → ℕ → List (Option ℕ) → ℕ × ℕ
count_inputs s i [] = (0, 0)
count_inputs s i (q ∷ qs) =
    let (expected, ready) = count_inputs s (suc i) qs in
    if port_drained s i
    then (expected, ready)
    else (suc expected, if holds_data q then suc ready else ready)

pub situation_of : NodePorts → Bool → Situation
situation_of s is_source =
    let (expected, ready) = count_inputs s 0 s.input_queues in
    record {
      expected_input_count = expected;
      ready_input_count = ready;
      is_source_node = is_source;
      has_initial_input = ltb 0 ready;
    }
