-- ===== src/Tests.antt =====
-- The theorems at concrete inputs, and runs of the code.
mod Buffers
mod Urls
mod Ranges
mod Requests
mod Paths
mod Sends
mod Pools
mod Listings
mod Defers
mod Args
mod Files
mod Responses
mod Conns
mod Loops
mod Transfers
mod Setups
mod Gets
