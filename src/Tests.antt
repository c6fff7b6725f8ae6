-- ===== src/Tests.antt =====
-- Concrete runs of the definitions, and the theorems at concrete inputs.
mod Samples
mod Wire
mod Gates
mod Buffers
mod Owners
mod Brokers
mod Configs
mod Viewers
mod Tools
mod Panels
mod Gadgets
mod Hosts
mod Screens
mod Codec
mod Releases
