-- ===== src/Farmer.antt =====
-- farm/reward_farmer.py: the farmer's pure functions.
pub mod Lifecycle
pub mod Fills
pub mod MidWatch
pub mod Pricing
pub mod Keep
pub mod Reconcile
pub mod Exits
pub mod Quotes
