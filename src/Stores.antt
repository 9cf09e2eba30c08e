-- ===== src/Stores.antt =====
-- The storage ports (ports/) and the adapters that fill them (adapters/).
pub mod ReviewPort
pub mod Reviews
pub mod Firestore
