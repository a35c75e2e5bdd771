-- ===== src/Engine/Control/Ends.antt =====
-- How a stream or an execution of the engine of src/execution_engine_impl.cpp ends.
use ai_pipe.Prelude.{
  ℕ, zero, suc, ◌+◌, ◌<◌, ◌≡◌, refl, sym, ap, ◌∙◌, arith, true, false, ltb, leb, if◌then◌else◌,
  Bool-cases, inl, inr,
}
use ai_pipe.Engine.Control.{Control}
use ai_pipe.Engine.Control.Methods.{record_sink_end_of_stream}

-- The end of the stream reaches `n` sinks, one after another.
pub reach_sinks : ℕ → Control → Control
reach_sinks zero c = c
reach_sinks (suc n) c = reach_sinks n (record_sink_end_of_stream c)

reach_sinks-reached :
    (n : ℕ) (c : Control)
    → c.end_of_stream_reached ≡ true
    → ((reach_sinks n c).end_of_stream_reached ≡ true)
      × ((reach_sinks n c).ends_of_stream ≡ c.ends_of_stream)
unfolding reach_sinks record_sink_end_of_stream
reach_sinks-reached zero c h = (h, refl)
reach_sinks-reached (suc n) c h =
    let next = record_sink_end_of_stream c in
    let same : (next.end_of_stream_reached ≡ true) × (next.ends_of_stream ≡ c.ends_of_stream) =
      ground (arith, h) in
    let (reached, ends) = reach_sinks-reached n next same.0 in (reached, ends ∙ same.1)

-- From a count of sinks reached, of a graph with sinks, that is still short of all: after `n` more the end of the
-- stream is reached, and its callback was called once more, if all sinks are among them; before that
-- it is not reached and the callback was not called.
pub reach_sinks_lem :
    (n : ℕ) (c : Control)
    → c.sinks_at_eos < c.sink_count
    → c.end_of_stream_reached ≡ false
    → ((reach_sinks n c).end_of_stream_reached ≡ leb c.sink_count (c.sinks_at_eos + n))
      × ((reach_sinks n c).ends_of_stream ≡ (
          if leb c.sink_count (c.sinks_at_eos + n) then suc c.ends_of_stream else c.ends_of_stream))
unfolding reach_sinks record_sink_end_of_stream
reach_sinks_lem zero c short before = ground (arith, short, before)
reach_sinks_lem (suc n) c short before =
    let next = record_sink_end_of_stream c in
    elim (Bool-cases (ltb (suc c.sinks_at_eos) c.sink_count)) [
      | inl more ↦
          let same : (next.sinks_at_eos ≡ suc c.sinks_at_eos)
              × (next.sink_count ≡ c.sink_count)
              × (next.end_of_stream_reached ≡ false)
              × (next.ends_of_stream ≡ c.ends_of_stream) =
            ground (arith, more, before) in
          let ih = reach_sinks_lem n next (ground (arith, more, same)) same.2 in
          ground (arith, ih, same)
      | inr last ↦
          let same : (next.end_of_stream_reached ≡ true)
              × (next.ends_of_stream ≡ suc c.ends_of_stream) =
            ground (arith, last, short, before) in
          let (reached, ends) = reach_sinks-reached n next same.0 in
          let all : leb c.sink_count (c.sinks_at_eos + suc n) ≡ true = ground (arith, last) in
          (
            reached ∙ sym all,
            ends
                ∙ same.1
                ∙ ap (λ b. if b then suc c.ends_of_stream else c.ends_of_stream) (sym all),
          )
    ]
