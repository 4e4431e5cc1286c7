-- ===== src/Tests.antt =====
-- Inputs on which the theorems about the kernel's files apply, and runs of the definitions.
mod Machine
mod Scheduling
mod Semaphores
mod Data
mod Pages
mod Start
mod Forks
mod Calls
mod Board
mod Programs
mod Building
