-- ===== src/Witness.antt =====
-- The theorems at concrete inputs, over small implementations of the packages.
mod ToyJson
mod Toy
mod Records
mod Pages
mod Tables
mod ToyPosix
mod Logs
mod Slots
mod ToySort
mod Databases
mod Queries
mod ToyCache
mod Storage
mod Tasks
mod Exports
mod ToyNames
mod ToyFiles
mod Whole
mod Saved
mod Loads
mod Saves
mod Crashes
