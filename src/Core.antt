-- ===== src/Core.antt =====
-- packages/core/src/novon/core: the parts that the services share.
pub mod Typehints
pub mod ModelUtils
pub mod Errors
pub mod Settings
pub mod Logging
pub mod Client
pub mod Feign
pub mod Context
pub mod Middleware
pub mod AppFactory
