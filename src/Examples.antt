-- ===== src/Examples.antt =====
-- A small machine, and each theorem that has conditions applied to it.
mod Machine
mod Heaps
mod Values
mod Runs
mod Lists
mod Outside
mod Answers
mod Threads
mod Handlers
mod Calls
mod Loading
