-- ===== src/Vue/View/Buttons.antt =====
-- The buttons that the Vue client renders after responses of the server.
pub mod Shows
pub mod Page
