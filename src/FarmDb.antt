-- ===== src/FarmDb.antt =====
-- farm/farm_db.py: the database that the screener, the farmer and the console share.
pub mod Types
pub mod Markets
pub mod Settings
pub mod Commands
