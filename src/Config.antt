-- ===== src/Config.antt =====
-- Profiles: src/agent_lab/config.py.
pub mod Text
pub mod Size
pub mod Section
pub mod Profile
