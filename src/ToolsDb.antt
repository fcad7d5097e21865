-- ===== src/ToolsDb.antt =====
-- tools/db.py: the tables of tools.db and every statement run against them.
pub mod Types
pub mod Log
pub mod Workers
pub mod Jobs
pub mod Watches
