-- ===== src/Tests.antt =====
-- Concrete inputs at which the properties apply.
mod NodeTable
mod Listing
mod Handles
mod Runtime
mod Session
mod Mount
mod Values
mod Permissions
mod Names
mod PathNodeFs
