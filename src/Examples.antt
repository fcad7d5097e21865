-- ===== src/Examples.antt =====
-- The theorems at concrete inputs, and the surroundings that they run in.
mod World
mod Tools
mod Snipers
mod Markets
mod Lanes
mod Farm
mod Quotes
mod Scans
