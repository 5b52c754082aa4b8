-- ===== src/Examples.antt =====
-- Tests of the models, and the theorems at concrete inputs.
mod Keys
mod Packages
mod Trees
mod Suites
mod Unions
mod Worlds
mod Rounds
mod Members
mod Deliveries
mod Protected
mod PathRounds
