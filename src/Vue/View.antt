-- ===== src/Vue/View.antt =====
-- The render functions of the components: what they read of `pool_data`, and what they give to Vue. A slot
-- is rendered with its component.
pub mod Parts
pub mod Make
pub mod Pools
pub mod Keys
pub mod Edit
pub mod Frame
pub mod Buttons
pub mod Alert
