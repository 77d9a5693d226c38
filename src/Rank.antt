-- ===== src/Rank.antt =====
-- stremio-addon/lib/rank.js: which search results are shown, in which order, and under which
-- labels. The parts are modules of their own, each with its laws beside it.
pub mod Titles
pub mod Score
pub mod Listing
pub mod Labels
