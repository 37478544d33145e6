-- ===== src/Vue.antt =====
-- The Vue client of Lens3: the part of v2/lens3/ui/assets/index.js that is Lens3's own, the module
-- lens3c, and the methods and render functions of the components.
pub mod State
pub mod Code
pub mod Times
pub mod Client
pub mod Actions
pub mod Tree
pub mod View
pub mod Spec
pub mod Quiet
pub mod Sent
pub mod Token
pub mod Expiry
pub mod Startup
pub mod Failure
pub mod Tests
