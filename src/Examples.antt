-- ===== src/Examples.antt =====
-- The theorems about the daemon's crates at concrete inputs.
mod Ring
mod Accounts
mod Rights
mod ScopeIndex
mod Logins
mod Saving
mod Settings
mod Names
mod Values
mod Facets
mod ScopeFiles
mod Services
mod Isolation
mod Branches
mod Registered
mod Instances
mod Triggered
mod Requests
mod Stopped
