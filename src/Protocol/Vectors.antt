-- ===== src/Protocol/Vectors.antt =====
-- The vector file of the repository, less the cases that no coverage rule names.
mod Parts
mod Prefixes
mod Outcomes
mod JavaWire
mod GoWire
mod Watchdogs
mod Others
mod Frames
mod File
