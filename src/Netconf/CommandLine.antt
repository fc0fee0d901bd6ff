-- ===== src/Netconf/CommandLine.antt =====
-- switchByCommandline and main of netconf.go. Package flag parses the flags.
pub mod Laws
use platform_configure.Prelude.{
  ℕ, Bytes, codes, bytes_eq, Bool, [], ◌∷◌, ◌++◌, none, some, if◌then◌else◌,
}
use platform_configure.Netconf.Interface.{System, Reply}
use platform_configure.Netconf.Report.{show_config}
use platform_configure.Netconf.Dhcp.{enable_dhcp, reset_to_dhcp}
use platform_configure.Netconf.Static.{set_static_config}

pub record Flags : Type 0 where
  pub show : Bool
  pub reset : Bool
  pub mode : Bytes
  pub interface : Bytes
  pub address : Bytes
  pub netmask : Bytes
  pub gateway : Bytes
  pub dns : Bytes
  pub version : Bool

module _ {S : Type 0} (sys : System S) where
  unfoldable pub switch_by_commandline : Flags → S → Reply × S
  switch_by_commandline f s =
      if f.show
      then (show_config sys s, s)
      else if f.version
      then ((codes "Version: 0.9 (missing menu and repair)", none), s)
      else if f.reset
      then reset_to_dhcp sys s
      else if bytes_eq f.mode (codes "dhcp")
      then enable_dhcp sys f.interface s
      else if bytes_eq f.mode (codes "static")
      then set_static_config sys f.interface f.address f.netmask f.gateway f.dns s
      else (([], some (codes "Invalid flag.")), s)

  -- The exit status, what is printed, and the state: log.Fatal prints the error alone.
  unfoldable pub main : Flags → S → ℕ × Bytes × S
  main f s =
      let ((message, err), s1) = switch_by_commandline f s in
      elim err [ some e ↦ (1, e, s1) | none ↦ (0, message ++ codes "\n", s1) ]
