-- ===== src/Tests.antt =====
-- Concrete runs of the theorems.
mod Data
mod Ranking
mod Searching
mod Serving
mod Playing
mod Access
mod Steady
mod Offering
mod Shown
mod Diagnosed
mod Routed
