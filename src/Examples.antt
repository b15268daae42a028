-- ===== src/Examples.antt =====
-- Runs of the modelled code on small inputs, and each theorem at an input.
pub mod Texts
pub mod Signals
pub mod Watching
pub mod Code
pub mod Sequences
pub mod Patches
pub mod Trap
pub mod Hardware
pub mod Space
pub mod Native
pub mod Clean
pub mod Printing
