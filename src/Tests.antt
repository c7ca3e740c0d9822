-- ===== src/Tests.antt =====
-- Runs of the model and of its theorems on concrete data.
mod Data
mod Dates
mod Queues
mod Search
mod Account
mod Files
mod Fields
mod Turns
mod Fcrontabs
mod Clients
