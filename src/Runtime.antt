-- ===== src/Runtime.antt =====
-- What the services run on. The database, Redis, RabbitMQ and the clock are outside the repository:
-- they are the parameter `Env`, which answers a call from all the calls that were made before it. It
-- may answer anything, an exception included, so a theorem over every `Env` holds whatever the other
-- processes do at the same time. A service is an action `M A`: a function of the calls made so far,
-- newest first, which returns a value or throws, with the calls made by then.
pub mod Calls
pub mod Monad
pub mod Keeps
pub mod Triple
pub mod Observe
pub mod Returns
