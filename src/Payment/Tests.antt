-- ===== src/Payment/Tests.antt =====
-- Runs of the payment endpoint, and its theorems at concrete requests.
mod Data
mod Requests
mod Interleaved
mod Answered
