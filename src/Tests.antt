-- ===== src/Tests.antt =====
-- Runs of the modelled code on small inputs.
mod Elements
mod Mempools
mod Lists
mod Votes
mod Pools
mod Networks
mod Reactors
