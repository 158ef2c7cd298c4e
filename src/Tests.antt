-- ===== src/Tests.antt =====
-- Concrete inputs for the theorems, and runs of the definitions on them.
mod Samples
mod Surveys
mod Ballots
mod Links
mod Limits
mod Documents
mod Web
mod Commands
mod Suggestions
mod Opening
mod Backups
mod Upgrades
mod Passwords
