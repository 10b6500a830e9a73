-- ===== src/Route.antt =====
-- Rule matching (route/rule_*.go): the connection's metadata with its rule cache, the conditions,
-- and the rules built from them.
pub mod Context
pub mod Item
pub mod Items
mod Tests
pub mod DnsRule
pub mod Router
pub mod DefaultRule
pub mod LogicalRule
pub mod Builder
pub mod Headless
