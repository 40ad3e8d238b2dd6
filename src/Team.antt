-- ===== src/Team.antt =====
-- research_team/: the controller of a team of research agents.
pub mod Host
pub mod Prompt
pub mod Impact
pub mod Claude
pub mod Work
pub mod Worker
pub mod Roster
pub mod Timeline
