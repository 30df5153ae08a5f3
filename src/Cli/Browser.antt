-- ===== src/Cli/Browser.antt =====
-- src/nova_act/cli/browser: the browser sessions that outlive the command that made them.
pub mod Models
pub mod Sessions
pub mod SessionId
pub mod Pruning
pub mod Creating
pub mod Closing
pub mod Listing
pub mod Lifecycle
pub mod Directories
