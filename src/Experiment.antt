-- ===== src/Experiment.antt =====
-- internal/experiment/experiment.go: the registry of experiments and the assignment of subjects.
pub mod Assign
pub mod Tiling
