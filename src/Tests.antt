-- ===== src/Tests.antt =====
-- The theorems at concrete inputs, and runs of the code at inputs that can be followed in the source.
mod Browser
mod Crc
mod Daemon
mod Game
mod Hash
mod Ipc
mod Log
mod LogProgram
mod Logger
mod Mouse
mod Nodes
mod Server
mod ServerSetup
mod Settings
mod Sorting
mod Stats
mod Telehack
mod TelehackClient
mod Timer
mod Weather
mod Zip
mod ZipProgram
