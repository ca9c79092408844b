-- ===== src/Examples.antt =====
-- Runs of the model, and each theorem with hypotheses at an input that meets them.
mod Parts
mod Trees
mod Packets
mod Sessions
mod Tunnel
mod Ends
mod Life
mod Threads
