-- ===== src/V1.antt =====
-- The page of v1/src/lenticularis/ui2/lens3ui.js. It is that of v2 but for a label in the pool list and
-- for the rounding in `parse_time_z`; functions with the same text are passed on under their names.
pub mod Render
pub mod Data
pub mod Api
pub mod Actions
pub mod Rounding
pub mod Likeness
mod Tests
