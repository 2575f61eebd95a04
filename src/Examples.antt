-- ===== src/Examples.antt =====
-- Runs at concrete inputs, in the database and the cache in memory, and the theorems at inputs that
-- meet their hypotheses.
mod Data
mod Money
mod Departures
mod Messages
mod Attempts
mod People
mod Requests
mod Deposits
mod Pages
mod Notices
mod Seeds
mod Http
mod Overlaps
mod Bodies
mod Payments
mod Unanswered
mod Reports
mod Receipts
mod Sessions
mod Served
