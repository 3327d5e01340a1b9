-- ===== src/Effects.antt =====
-- The operator's calls of Kubernetes, GitHub, the GitHub App transport and the clock, and programs
-- that make such calls. The services are not modelled: a program goes on from every reply.
mod Program
pub mod Monitor
pub mod Kinds
pub mod Answer
unfoldable pub use Program.*
