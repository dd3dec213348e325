-- ===== src/Security.antt =====
-- src/security_policy.c: the abuse-control state that all connections share.
pub mod Keys
pub mod Window
pub mod Table
pub mod Policy
