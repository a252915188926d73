-- ===== src/Tests.antt =====
-- The theorems at concrete inputs.
mod Bytes
mod Directories
mod Disk
mod Frames
mod Hardware
mod Heap
mod Ide
mod Queues
mod Reopened
mod Scan
mod Simulator
mod State
mod Threads
mod Waiting
