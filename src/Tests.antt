-- ===== src/Tests.antt =====
-- Runs of the modelled operations, and the theorems at concrete inputs.
mod Sets
mod Forest
mod Dates
mod Trees
mod Plans
mod Tags
mod Views
mod PlanTexts
mod Chains
mod Predicates
mod Graphs
