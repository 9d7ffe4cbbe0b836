-- ===== src/Api.antt =====
-- The API types of api/v1alpha1: the specs and statuses of the two custom resources.
pub mod Resource
pub mod Network
