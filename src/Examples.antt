-- ===== src/Examples.antt =====
-- Tests of the definitions, and each theorem at an input that meets its conditions.
mod Data
mod Delivery
mod Routing
mod World
mod Session
mod Served
mod Accounts
mod Client
mod Disk
