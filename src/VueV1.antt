-- ===== src/VueV1.antt =====
-- The Vue client of v1, from its sources under v1/ui/src: lens3c.ts and the components. It is that of v2
-- but for some texts and for the rounding of the expiration of a new key; functions with the same text are
-- passed on under their names.
pub mod Client
pub mod Actions
pub mod Whole
pub mod Likeness
pub mod Panels
pub mod Frame
pub mod Buttons
mod Tests
