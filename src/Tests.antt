-- ===== src/Tests.antt =====
-- The theorems on concrete data.
mod Acting
mod Deciding
mod Interleaving
mod Platform
mod Running
mod Serving
