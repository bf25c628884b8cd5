-- ===== src/Http.antt =====
-- The HTTP side of apps/api-gateway: libs/common/src/global-exception.filter.ts,
-- libs/common/src/response-transform.interceptor.ts, the DTOs and the controllers.
pub mod Filter
pub mod Requests
pub mod Controllers
pub mod Replies
pub mod Windows
pub mod Routes
pub mod Serving
pub mod Guards
pub mod Guarding
pub mod Accounts
