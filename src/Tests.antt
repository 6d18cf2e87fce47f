-- ===== src/Tests.antt =====
-- A small world of users, dashboards and credentials, and the theorems at inputs from it.
mod World
mod Dashboards
mod Sharing
mod Credentials
mod Identities
mod Storage
mod Signing
mod Pages
mod Labels
