-- ===== src/Ui.antt =====
-- The Web-UI in plain JavaScript (v2/lens3/ui2/lens3ui.js).
pub mod Node
pub mod State
pub mod Code
pub mod Times
pub mod Render
pub mod Data
pub mod Api
pub mod Actions
pub mod Tests
pub mod Quiet
pub mod Requests
pub mod Spec
pub mod Views
