-- ===== src/Gateway.antt =====
-- The gateway: src/agent_lab/gateway.
pub mod App
pub mod Backend
pub mod Answer
pub mod Stream
pub mod Chunks
pub mod Keys
pub mod Queue
pub mod Result
pub mod Number
pub mod Library
pub mod Messages
pub mod Tools
pub mod Effort
pub mod Limit
pub mod Options
pub mod Prepare
