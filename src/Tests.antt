-- ===== src/Tests.antt =====
-- Runs of the definitions at concrete inputs, and the theorems at such inputs.
mod Demo
mod Stores
mod Databases
mod Histories
mod Replays
mod Registries
mod Sagas
mod Runners
mod Definitions
mod Progress
mod Projections
mod Tallies
mod Children
mod Contexts
mod Fanouts
mod Maps
