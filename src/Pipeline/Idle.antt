-- ===== src/Pipeline/Idle.antt =====
-- The facade of src/pipeline_impl.cpp is idle only if its engine is, whatever was called and whatever happened.
use ai_pipe.Pipeline.{Pipeline}
