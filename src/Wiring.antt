-- ===== src/Wiring.antt =====
-- How NestJS puts the three applications together: the modules of apps and libs, the constructors of
-- their classes, and what `main.ts` of each application sets up.
pub mod Gather
pub mod Classes
pub mod Modules
pub mod Resolution
pub mod Order
pub mod Bootstrap
pub mod Options
