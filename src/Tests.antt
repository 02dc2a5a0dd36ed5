-- ===== src/Tests.antt =====
-- Runs of the model on concrete data, and the theorems applied to it.
mod Demands
mod Plans
mod Store
mod Session
mod Transition
