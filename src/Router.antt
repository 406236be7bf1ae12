-- ===== src/Router.antt =====
-- services/execution_router/src: the router of order commands. Child `Dedup` has the cache of seen
-- orders, `Reports` the execution reports, `Handle` the handler of an order and the loop.
pub mod Dedup
pub mod Reports
pub mod Handle
pub mod Codes
pub mod Exits
pub mod Tables
pub mod Writer
