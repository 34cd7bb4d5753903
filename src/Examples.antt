-- ===== src/Examples.antt =====
-- Runs of the service on an external world that meets the laws, and the theorems at them.
mod Store
mod Reader
mod Machine
mod Setting
mod Streams
mod Threads
mod Turns
mod Overtakes
mod Overlaps
mod Dead
mod Serving
mod Requests
mod Paths
mod Served
mod Texts
mod Files
mod Watched
mod Recovered
mod Titles
mod Logs
mod Races
mod Registries
