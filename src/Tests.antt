-- ===== src/Tests.antt =====
-- Concrete inputs: runs of the definitions, and each theorem applied where its hypotheses hold.
mod Machine
mod Programs
mod Opened
mod Passes
mod Claims
mod Owners
mod Repairs
mod Budget
mod Engine
mod Journal
mod Supervisor
mod Retry
