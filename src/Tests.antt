-- ===== src/Tests.antt =====
-- The services at concrete inputs.
mod Users
mod Threads
mod Schedules
mod Flows
mod FlowThreads
mod Unlocked
mod Calls
mod Timing
mod Edge
mod Mocks
mod Routers
mod Endpoints
mod Retrying
mod Transport
mod Services
mod FlowService
mod Hops
mod Outage
mod Lifespans
mod Requests
