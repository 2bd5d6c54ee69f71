-- ===== src/Tests.antt =====
-- Concrete states and requests, and what the theorems say of them.
mod Bank
mod Books
mod Movements
mod Listings
mod Requests
mod Environments
mod Http
mod Keys
mod Runs
mod Webhooks
