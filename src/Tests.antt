-- ===== src/Tests.antt =====
-- Runs at concrete inputs: a platform that can be run, and the theorems at inputs where they apply.
mod Sample
mod Endpoints
mod Messages
mod Networks
mod Hubs
mod Secure
mod Pumped
mod Topologies
mod Registries
mod Diagnosed
