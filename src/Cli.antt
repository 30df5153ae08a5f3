-- ===== src/Cli.antt =====
-- src/nova_act/cli: the command line tools.
pub mod State
pub mod Names
pub mod Workflows
pub mod Browser
