-- ===== src/Core.antt =====
-- libs/core: the enums, the entities and the JSON values that the services exchange.
pub mod Enums
pub mod Value
pub mod Entities
