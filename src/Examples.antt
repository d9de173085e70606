-- ===== src/Examples.antt =====
-- The theorems at concrete inputs.
mod Stories
mod Runs
mod Agents
mod Plans
mod Decisions
mod StoreData
mod Stores
mod Deliveries
mod Launches
mod Panes
mod Supervisions
