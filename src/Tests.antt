-- ===== src/Tests.antt =====
-- The theorems at concrete inputs, and runs of the definitions that can be followed in the source.
mod Toy
mod Packets
mod Queues
mod Channels
mod Connections
mod Conversations
mod Samples
mod Streams
mod Sessions
mod Readers
mod Loops
mod Networks
mod Texts
mod Menus
