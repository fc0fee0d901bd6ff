-- ===== src/Netconf.antt =====
-- go/netconf: show the network configuration, and set it to DHCP or to static addresses.
pub mod Interface
pub mod Checked
pub mod FileSystem
pub mod Linux
pub mod Report
pub mod Dhcp
pub mod Static
pub mod CommandLine
pub mod Mocs
pub mod Memory
