-- ===== src/ViewChanger.antt =====
-- pbft/view_changer/view_changer.go: the replacement of a leader. NewView has the computation of the
-- new leader's message, Defs the state and its handlers, Steps what can happen to it.
pub mod NewView
pub mod Defs
pub mod Steps
pub mod Range
pub mod Supporters
pub mod Highest
pub mod Prepared
pub mod Chosen
pub mod Proposals
pub mod Timeouts
pub mod Justified
pub mod Announcements
pub mod Leaders
pub mod Sender
pub mod Service
mod Examples
mod Scenarios
