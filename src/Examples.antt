-- ===== src/Examples.antt =====
-- The theorems at concrete inputs.
mod Units
mod Remotes
mod Accounts
mod Requests
mod Manager
mod Sso
mod Tokens
mod Records
