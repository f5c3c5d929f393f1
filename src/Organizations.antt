-- ===== src/Organizations.antt =====
-- Organizations and their members: internal/service/organization.go over its repository and the enforcer.
pub mod Organization
pub mod Service
pub mod Roles
pub mod Owned
pub mod Unmoved
pub mod Ownership
pub mod Membership
pub mod Creation
pub mod Histories
mod Tests
