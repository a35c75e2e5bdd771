-- ===== src/Engine/Ports/Latches.antt =====
-- `signalEndOfStream` of src/execution_engine_impl.cpp latches one port, once.
use Prim.Native.String.{String}
use text.Mathlib.TextEquality.{eq_iff}
use ai_pipe.Prelude.{
  ℕ, suc, ◌<◌, ◌≡◌, ◌≢◌, ◌⊎◌, inl, inr, refl, ap, ◌∙◌, arith, true, false, ◌||◌, some, List, [],
  ◌∷◌, eqb, leb, length, get_elem?, string_eq, ◌==◌, Bool-cases,
}
use ai_pipe.Prelude.Flags.{has_flag, set_flag, has_flag-set_flag}
use ai_pipe.Errors.{error_of, no_error, port_not_found_error}
use ai_pipe.Errors.Codes.{ok, end_of_stream_signaled}
use ai_pipe.Errors.Results.{void_ok, void_err}
use ai_pipe.Engine.Ports.{
  NodePorts, k_max_eos_ports, port_eos_latched, port_index, actual_port, close_port, signal_port,
}

port_index-found :
    (port : String) (ps : List String)
    → (port_index port ps ≡ length ps) ⊎ (get_elem? ps (port_index port ps) ≡ some port)
unfolding port_index
port_index-found port [] = inl refl
port_index-found port (p ∷ ps) = elim (Bool-cases (p == port)) [
  | inl hit ↦ inr (rw hit (ap (λ x. some x) ((eq_iff p port).0 hit)))
  | inr miss ↦ elim (port_index-found port ps) [
    | inl lost ↦ inl (rw miss (ap suc lost))
    | inr found ↦ inr (rw miss found)
  ]
]

latched-set_flag :
    (s : NodePorts) (i j : ℕ)
    → leb k_max_eos_ports i ≡ false
    → port_eos_latched (record s { eos_mask = set_flag s.eos_mask i }) j
      ≡ (eqb i j || port_eos_latched s j)
unfolding port_eos_latched
latched-set_flag s i j small = ground (arith, has_flag-set_flag s.eos_mask i j, small)

close_port-again :
    (s : NodePorts) (node port : String) (i : ℕ)
    → eqb i (length s.input_ports) ≡ false
    → leb k_max_eos_ports i ≡ false
    → (close_port (record s { eos_mask = set_flag s.eos_mask i }) node port i).1.error.code
      ≡ end_of_stream_signaled
unfolding close_port void_err error_of
close_port-again s node port i found small =
    let set : has_flag (set_flag s.eos_mask i) i ≡ true =
      ground (arith, has_flag-set_flag s.eos_mask i i) in
    rw (found, small, set, close_port) refl

signal_port-again :
    (s : NodePorts) (node name : String)
    → eqb (length s.input_ports) 0 ≡ false
    → eqb (port_index (actual_port name s.input_ports) s.input_ports) (length s.input_ports) ≡ false
    → leb k_max_eos_ports (port_index (actual_port name s.input_ports) s.input_ports) ≡ false
    → (signal_port
        (record s {
          eos_mask =
              set_flag s.eos_mask (port_index (actual_port name s.input_ports) s.input_ports);
        })
        node
        name).1.error.code
      ≡ end_of_stream_signaled
unfolding signal_port
signal_port-again s node name some_port found small =
    rw (some_port, signal_port)
      (close_port-again s node (actual_port name s.input_ports)
        (port_index (actual_port name s.input_ports) s.input_ports) found small)

close_port_lem :
    (s : NodePorts) (node port : String) (i : ℕ)
    → (((close_port s node port i).0 ≡ s) × ((close_port s node port i).1.error.code ≢ ok))
      ⊎ ((close_port s node port i ≡ (record s { eos_mask = set_flag s.eos_mask i }, void_ok))
          × (eqb i (length s.input_ports) ≡ false)
          × (leb k_max_eos_ports i ≡ false)
          × (has_flag s.eos_mask i ≡ false))
unfolding close_port void_err error_of port_not_found_error
close_port_lem s node port i = elim (Bool-cases (eqb i (length s.input_ports))) [
  | inl lost ↦ inl (rw (lost, close_port) (refl, λ h. cc))
  | inr found ↦ elim (Bool-cases (leb k_max_eos_ports i)) [
    | inl far ↦ inl (rw (found, far, close_port) (refl, λ h. cc))
    | inr small ↦ elim (Bool-cases (has_flag s.eos_mask i)) [
      | inl closed ↦ inl (rw (found, small, closed, close_port) (refl, λ h. cc))
      | inr still ↦ inr (rw (found, small, still, close_port) refl, found, small, still)
    ]
  ]
]

-- What a call of `signalEndOfStream` for a node comes to.
abbrev pub Signaled : NodePorts → String → String → Type 0
Signaled s node name =
    (((signal_port s node name).0 ≡ s) × ((signal_port s node name).1.error.code ≢ ok))
    ⊎ (((signal_port s node name).1.error.code ≡ ok)
        × ((i : ℕ) × (get_elem? s.input_ports i ≡ some (actual_port name s.input_ports))
            × (i < k_max_eos_ports)
            × (port_eos_latched s i ≡ false)
            × ((j : ℕ)
                → port_eos_latched (signal_port s node name).0 j
                  ≡ (eqb i j || port_eos_latched s j)))
        × ((signal_port (signal_port s node name).0 node name).1.error.code
            ≡ end_of_stream_signaled))

-- A call of `signalEndOfStream` for a known node of a streaming engine either fails and changes no latch, or succeeds:
-- then the port that it names, or the first one when the name is empty, is one of the first 64 and had no
-- latch, it has one now, no other latch changes, and the same call again fails with `EndOfStreamSignaled`.
pub signal_port_lem : (s : NodePorts) (node name : String) → Signaled s node name
unfolding signal_port void_err error_of void_ok no_error port_eos_latched
signal_port_lem s node name = elim (Bool-cases (eqb (length s.input_ports) 0)) [
  | inl nothing ↦ inl (rw (nothing, signal_port) (refl, λ h. cc))
  | inr some_port ↦
      let port = actual_port name s.input_ports in
      let i = port_index port s.input_ports in
      elim (close_port_lem s node port i) [
        | inl (kept, code) ↦ inl (rw (some_port, signal_port) (kept, code))
        | inr (closed, found, small, still) ↦
            let ran : signal_port s node name
                ≡ (record s { eos_mask = set_flag s.eos_mask i }, void_ok) =
              rw (some_port, signal_port) closed in
            inr (
              ap (λ x. x.1.error.code) ran,
              (
                i,
                elim (port_index-found port s.input_ports) [
                  | inl lost ↦ absurd (ground (arith, lost, found))
                  | inr there ↦ there
                ],
                ground (arith, small),
                ground (arith, small, still),
                λ j. ap (λ x. port_eos_latched x.0 j) ran ∙ latched-set_flag s i j small,
              ),
              ap (λ x. (signal_port x.0 node name).1.error.code) ran
                  ∙ signal_port-again s node name some_port found small,
            )
      ]
]
