-- ===== src/Tests.antt =====
-- Concrete assignments, executors and snapshots, and runs on them.
mod Samples
mod Productions
mod Bibles
mod Dialogues
mod Decimals
mod Budgets
mod Controls
mod Blueprints
mod Contexts
mod Routings
