-- ===== src/Screener.antt =====
-- farm/reward_screener.py and farm/fill_cost.py: scoring, planning and valuing quotes.
pub mod Scores
pub mod Zones
pub mod Longshot
pub mod Candidates
pub mod Values
pub mod Plans
