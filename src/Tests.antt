-- ===== src/Tests.antt =====
-- Concrete inputs: a small stand-in for the other packages, runs of the code, and an instance of
-- each theorem of the header.
mod Samples
mod Runs
mod Witnesses
mod GraphWitnesses
mod Early
mod Following
mod Submitting
mod Teams
mod Agents
mod Rosters
mod Nodes
mod Timelines
