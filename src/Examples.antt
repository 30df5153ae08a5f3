-- ===== src/Examples.antt =====
-- Runs of the modelled code at small inputs, and each theorem at such an input.
mod Sample
mod Running
mod Dispatching
mod Checking
mod Interpreting
mod Navigating
mod Serving
mod Saving
mod Browsing
mod Managing
mod Bursting
