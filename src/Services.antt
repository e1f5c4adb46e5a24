-- ===== src/Services.antt =====
-- src/services: the RPC handlers over the components that they call.
pub mod Wire
pub mod World
pub mod Signing
pub mod Accounts
pub mod Guarded
pub mod Tokens
pub mod Orphans
pub mod Depot
pub mod Firmware
pub mod BlobCalls
pub mod Review
