-- ===== src/Services.antt =====
-- services: the handlers through which a scheduler is called over the network. What gin, gRPC and
-- the network make of a reply is outside.
pub mod Http
pub mod Rpc
pub mod Calls
pub mod Joining
pub mod Delivery
pub mod Server
