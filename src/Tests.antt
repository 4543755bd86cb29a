-- ===== src/Tests.antt =====
-- The theorems at concrete inputs, where their hypotheses hold.
mod Queue
mod Scheduling
mod Net
mod Runtime
mod Api
mod Domain
mod Packaging
mod Limiter
mod Handlers
mod Pages
mod Settings
