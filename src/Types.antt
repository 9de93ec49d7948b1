-- ===== src/Types.antt =====
-- The records that the API exchanges (frontend/src/types), one module per entity.
-- Texts are `String`, `null` is `none`, and ids, counts and positions, which the server keeps in
-- non-negative integer columns, are natural numbers.
pub mod Deal
pub mod Task
pub mod Subscription
pub mod Costing
pub mod Contact
