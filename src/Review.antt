-- ===== src/Review.antt =====
-- The bounds on reviews: how often a review may run, and how often a station that rendered no
-- verdict is tried again.
pub mod Cap
pub mod Budget
pub mod Reattempt
pub mod Retrying
pub mod Markers
pub mod Gate
pub mod Passage
pub mod Examples
