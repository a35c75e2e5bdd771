-- ===== src/Engine/Ports/Tests.antt =====
-- The theorems on input ports at concrete inputs: the first of two ports has data and no latch, the second is closed.
use ai_pipe.Prelude.{◌≡◌, false, some, [], ◌∷◌, if◌then◌else◌}
use ai_pipe.Schedule.{schedule_now, wait_for_inputs, should_schedule}
use ai_pipe.Engine.Ports.{NodePorts, situation_of}
use ai_pipe.Engine.Ports.Latches.{Signaled, signal_port_lem}
use ai_pipe.Engine.Ports.Readiness.{open_ports_hold, schedules_open_ports}

abbrev stereo : NodePorts
stereo = record {
  input_ports = "left" ∷ "right" ∷ [];
  input_queues = some 3 ∷ some 0 ∷ [];
  eos_mask = 2;
}

signal_port_lem_example : Signaled stereo "join" "left"
signal_port_lem_example = signal_port_lem stereo "join" "left"

schedules_open_ports_example :
    should_schedule (situation_of stereo false)
    ≡ (if open_ports_hold stereo 0 stereo.input_queues then schedule_now else wait_for_inputs)
schedules_open_ports_example = schedules_open_ports stereo
