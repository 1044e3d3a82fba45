-- ===== src/Tests.antt =====
-- Runs of the model on concrete inputs.
mod Data
mod Clocks
mod Tokens
mod Manifests
mod Shares
mod Keys
mod Storage
mod Connections
mod Accounts
mod Users
mod Peers
mod Reconnection
mod Payloads
mod Resources
mod Folders
mod Sessions
