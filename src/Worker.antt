-- ===== src/Worker.antt =====
-- internal/worker: the gRPC server of a worker node, and the manager on the main node.
pub mod Wire
pub mod Server
pub mod Client
pub mod Manager
