-- ===== src/Examples.antt =====
-- The theorems at concrete inputs, and runs of the definitions.
mod Chunking
mod Caching
mod Embeddings
mod Interleaving
mod Serving
mod Requests
mod Storing
mod Database
mod Repositories
mod Sequences
mod Searching
mod Monitoring
mod Deleting
