-- ===== src/Tests.antt =====
-- Concrete inputs at which the theorems apply, and runs of the model on them.
mod Protocol
mod Keys
mod Sketches
mod Sets
mod Servers
mod Expiry
mod Filters
mod ToyFloats
mod SkipLists
mod Trees
mod Gateways
mod SortedSets
mod Requests
mod Interleavings
mod EventLoops
mod Listeners
mod Polls
