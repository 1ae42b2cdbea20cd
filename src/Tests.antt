-- ===== src/Tests.antt =====
-- The theorems at concrete inputs, and runs of the definitions.
mod Data
mod Wire
mod Answers
mod Loop
mod Times
mod Logs
mod Calls
mod Serving
mod RemoteCall
mod Threads
mod Transfer
