-- ===== src/Auth.antt =====
-- Server/AuthServer/Server/AuthSession.h and .cpp: one client's connection to the auth server.
pub mod Protocol
pub mod Code
pub mod Session
pub mod Challenge
pub mod Proof
pub mod RealmReply
pub mod Reader
pub mod Step
pub mod Status
pub mod Queued
pub mod Loop
pub mod Phase
pub mod Rounds
pub mod Invariant
pub mod Login
pub mod Safety
pub mod Dead
pub mod Bounds
pub mod Listed
pub mod Verdict
