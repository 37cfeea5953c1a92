-- ===== src/Domain.antt =====
-- internal/domain: entities, errors, and the validation rules.
pub mod Types
pub mod Values
pub mod Slug
pub mod Formats
pub mod Report
pub mod Candidate
pub mod Answers
pub mod CustomFields
pub mod JobInput
pub mod Requests
