-- ===== src/Ssh.antt =====
-- crates/grenat_ssh: the command line of a remote command, and whether the key of a host is trusted.
pub mod Quote
pub mod HostPattern
pub mod KnownHosts
pub mod HostKey
mod Hosts
mod Tests
