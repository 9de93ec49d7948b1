-- ===== src/Js.antt =====
-- The parts of JavaScript that frontend/src relies on: values of unknown type, texts, array
-- methods, `Map`, and the numbers, which are a parameter.
pub mod Value
pub mod Text
pub mod Array
pub mod Sort
pub mod Map
pub mod Concat
pub mod Tally
pub mod Numbers
pub mod Integers
pub mod Patch
