-- ===== src/Engine/Keeps.antt =====
-- src/engine.cpp: the stages of the pipeline, for the invariant of the engine.
pub mod Relation
pub mod Hops
pub mod Frames
pub mod Rounds
