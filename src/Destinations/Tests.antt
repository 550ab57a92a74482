-- ===== src/Destinations/Tests.antt =====
-- Runs of the model on the sample gallery, and the theorems at these inputs.
mod Plans
mod Runs
