-- ===== src/Api.antt =====
-- api/app.py and api/schemas.py: what the service decides at start-up, and its routes.
pub mod Origins
pub mod Posture
pub mod Callers
pub mod Schemas
pub mod Reviews
pub mod Cases
pub mod Reach
