-- ===== src/Registry.antt =====
-- mort/registry_security.py. Json has the values, Records the keys and records, and Log the transparency log. Guards,
-- Logged and History are about what an accepted log says, Payload, Links and Chain about its hashes, and Prefix about
-- a longer log. Checkpoint has the rest of `verify_registry`, and Signed is about it.
mod Json
mod Records
mod Log
mod Guards
mod Logged
mod History
mod Payload
mod Links
mod Chain
mod Checkpoint
mod Signed
mod Prefix
mod Tests
