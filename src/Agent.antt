-- ===== src/Agent.antt =====
-- crates/agent: the tunnel through which the administrators' interface is reached from outside.
mod Tests
pub mod Frpc
pub mod Tunnel
