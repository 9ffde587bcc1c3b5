-- ===== src/Proxy.antt =====
-- src/proxy: the request handler, its policies, and the streams between clients and upstreams.
pub mod Http
pub mod Host
pub mod Policy
pub mod Shared
pub mod Handler
pub mod Streaming
pub mod Responses
pub mod Client
pub mod Tunnel
pub mod Server
mod Examples
