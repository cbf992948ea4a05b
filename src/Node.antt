-- ===== src/Node.antt =====
-- pbft/node.go: a replica of the cluster. Defs has its state, Requests the phases up to commit, Commits
-- the execution of committed requests and the checkpoints, Views the change of views and the status
-- messages, and Steps the main loop with the goroutines; the others prove.
pub mod Defs
pub mod Requests
pub mod Commits
pub mod Views
pub mod Steps
pub mod Window
pub mod Replies
pub mod Primary
pub mod Numbers
pub mod Stable
pub mod Prepared
mod Examples
pub mod Invariant
pub mod Certificates
pub mod Flag
