-- ===== src/Optimizer.antt =====
-- The optimizer of factDB/opt: the plans that its algorithms build and the algorithms.
pub mod Plans
pub mod DpSize
pub mod FixedPlan
pub mod QueryGraph
