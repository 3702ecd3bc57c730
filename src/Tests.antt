-- ===== src/Tests.antt =====
-- Concrete inputs at which the theorems about the code apply.
mod Quality
mod Request
mod Download
mod Poll
mod Search
mod Triggers
mod Placing
mod Import
mod Breaker
mod Filters
mod Playback
mod Transcode
mod Intake
mod Grouping
pub mod Data
