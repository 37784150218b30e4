-- ===== src/Examples.antt =====
-- Concrete runs: tests of the definitions, and the theorems at inputs that meet their hypotheses.
mod Memory
mod Areas
mod Channels
mod Descriptors
mod Devices
mod Disks
mod Kernel
mod Pipes
mod Processes
mod Scheduling
