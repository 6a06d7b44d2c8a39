-- ===== src/Model.antt =====
-- The package `model`: subscribers with their ONU bindings, and service tiers.
pub mod Subscriber
pub mod ServiceTier
