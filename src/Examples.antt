-- ===== src/Examples.antt =====
-- The properties at concrete inputs, and tests of the definitions.
mod Answers
mod Bridges
mod Calls
mod Daemons
mod Inventories
mod Pipeline
mod Ports
mod Probing
mod Reading
mod Sessions
mod Signing
mod Tagging
mod Watching
