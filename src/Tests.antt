-- ===== src/Tests.antt =====
-- Runs on small inputs, and the theorems applied to them.
mod Memory
mod Tasks
mod Messages
mod Services
mod Files
mod Syscalls
mod Vfs
mod Boots
mod Dispatch
mod Shell
