-- ===== src/Examples.antt =====
-- Tests of the models on concrete inputs, and each theorem at an input that meets its hypotheses.
mod Planning
mod Running
mod Merging
mod Sampling
mod Gating
mod Fanning
mod Diffing
mod Probing
mod Reporting
mod Measuring
mod Accounting
mod Toy
mod Sealing
mod Retrying
mod Storing
mod Uniting
