-- ===== src/Examples.antt =====
-- The theorems at concrete requests and databases.
pub mod Sessions
pub mod Addresses
pub mod Accounts
pub mod Peers
pub mod Hosts
pub mod Interface
pub mod Notices
pub mod Credentials
pub mod Chart
pub mod Panels
pub mod Ceremonies
pub mod Ranges
pub mod Texts
