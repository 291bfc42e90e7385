-- ===== src/Examples.antt =====
-- Tests of the definitions, and each theorem at an input that meets its hypotheses.
mod Budget
mod Files
mod Sources
mod Write
mod Read
mod ReadOrder
mod Session
mod Wakeups
mod Memory
