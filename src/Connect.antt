-- ===== src/Connect.antt =====
-- rdma/01_basic-client-server: a client and a server that exchange one message over an RDMA connection.
pub mod Calls
mod Client
mod Server
mod Accounts
mod Opening
mod Phases
mod ClientSteps
mod ClientRun
mod Live
mod ServerSteps
mod ServerRun
mod Failures
mod ServerFailures
mod ClientFailures
mod Examples
