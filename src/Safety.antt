-- ===== src/Safety.antt =====
-- No access through a dangling pointer, and no loop without end, in any call or round.
pub mod Triple
pub mod Invariant
pub mod Registry
pub mod Produce
pub mod Rpc
pub mod Loop
pub mod Wait
pub mod Send
pub mod Calls
pub mod Listening
pub mod Session
pub mod Interleaving
