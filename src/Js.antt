-- ===== src/Js.antt =====
-- The parts of JavaScript that the Web-UI uses: values, conversions to text and number, JSON, dates.
pub mod Value
pub mod Number
pub mod Json
pub mod Assign
pub mod Date
