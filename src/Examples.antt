-- ===== src/Examples.antt =====
-- Tests on concrete systems.
mod Arbitration
mod Units
mod Memories
mod Processors
mod Programs
mod Simulation
mod Interleaving
mod Tops
