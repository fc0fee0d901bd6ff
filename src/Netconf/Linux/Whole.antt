-- ===== src/Netconf/Linux/Whole.antt =====
-- netconf as it runs on Linux: its command line over the real interfaces.
use platform_configure.Prelude.{
  ℕ, Bytes, codes, ◌≡◌, bytes_eq, false, Option, none, some, if◌then◌else◌, arith,
}
use platform_configure.Netconf.Interface.{System}
use platform_configure.Netconf.FileSystem.{IsFileSystem}
use platform_configure.Netconf.Static.{StaticData, unit_path, unit_file}
use platform_configure.Netconf.Static.Checks.{IsStatic}
use platform_configure.Netconf.Static.Effects.{
  set_static_config-install, content-install_ok, restarted_with,
}
use platform_configure.Netconf.CommandLine.{Flags, main}
use platform_configure.Netconf.CommandLine.Laws.{AsksStatic, static_call}
use platform_configure.Netconf.Linux.{Netlink, Netutil, Dbus, Os, real_system, restart_networkd}
use platform_configure.Netconf.Linux.Laws.{restart_networkd_ok}

-- What is relied on: the file calls of packages os and io/ioutil, and that the calls on the bus
-- write no file. `content q s` is what is in the file at the path `q`, if there is one.
pub record IsMachine {S : Type 0} (bus : Dbus S) (os : Os S) (content : Bytes → S → Option Bytes)
    : Type 0 where
  pub content-write :
      (path text q : Bytes) (mode : ℕ) (s : S)
      → (os.write_file path text mode s).0 ≡ none
      → content q (os.write_file path text mode s).1
        ≡ (if bytes_eq path q then some text else content q s)
  pub content-write_other :
      (path text q : Bytes) (mode : ℕ) (s : S)
      → bytes_eq path q ≡ false
      → content q (os.write_file path text mode s).1 ≡ content q s
  pub content-remove :
      (path q : Bytes) (s : S)
      → (os.remove path s).0 ≡ none
      → content q (os.remove path s).1 ≡ (if bytes_eq path q then none else content q s)
  pub content-remove_other :
      (path q : Bytes) (s : S)
      → bytes_eq path q ≡ false
      → content q (os.remove path s).1 ≡ content q s
  pub content-stat : (path e : Bytes) (s : S) → os.stat path s ≡ some e → content path s ≡ none
  pub content-connect : (q : Bytes) (s : S) → content q (bus.connect s).1 ≡ content q s
  pub content-restart_unit :
      (unit mode q : Bytes) (s : S) → content q (bus.restart_unit unit mode s).2 ≡ content q s

module _ {S : Type 0} (net : Netlink S) (netutil : Netutil S) (bus : Dbus S) (os : Os S)
    (content : Bytes → S → Option Bytes) (M : IsMachine bus os content) where
  abbrev sys : System S
  sys = real_system net netutil bus os

  content-restart_networkd :
      (q : Bytes) (s : S) → content q (restart_networkd bus s).1 ≡ content q s
  unfolding restart_networkd
  content-restart_networkd q s =
      let s1 = (bus.connect s).1 in
      ground (
        arith,
        M.content-connect q s,
        M.content-restart_unit (codes "systemd-networkd.service") (codes "fail") q s1,
      )

  -- The real interfaces work on files as the program relies on it.
  pub real_system-IsFileSystem : IsFileSystem sys content
  real_system-IsFileSystem = record {
    content-write = M.content-write;
    content-write_other = M.content-write_other;
    content-remove = M.content-remove;
    content-remove_other = M.content-remove_other;
    content-stat = M.content-stat;
    content-restart = content-restart_networkd;
  }

  -- If netconf on Linux exits with status 0 in static mode, the unit that the addresses ask for,
  -- which pass all tests, is in place, and systemd has reported the restart of networkd as done in
  -- a state in which the unit was there. Assumed: the file calls work as documented, and the calls
  -- on the bus write no file.
  pub real_main_ok :
      (f : Flags) (s : S)
      → AsksStatic f
      → (main sys f s).0 ≡ 0
      → (unit : StaticData) × IsStatic
          (sys.nl.get_mac_address f.interface s).0
          f.address
          f.netmask
          f.gateway
          f.dns
          unit
        × (content (unit_path f.interface) (main sys f s).2 ≡ some (unit_file unit))
        × ((s1 : S) × (content (unit_path f.interface) s1 ≡ some (unit_file unit))
            × ((bus.connect s1).0 ≡ none)
            × (let job =
                  bus.restart_unit
                    (codes "systemd-networkd.service")
                    (codes "fail")
                    (bus.connect s1).1 in
                (job.0 ≡ none) × (job.1 ≡ codes "done")))
  unfolding main
  real_main_ok f s asks ok =
      let F = real_system-IsFileSystem in
      let path = unit_path f.interface in
      let i = (netutil.get_interface_stats f.interface s).0 in
      let call = static_call sys f s asks in
      let (unit, static, same) =
        set_static_config-install sys f.interface f.address f.netmask f.gateway f.dns s
          (ground (arith, call)) in
      let kept =
        content-install_ok sys content F f.interface i unit s (ground (arith, call, same)) in
      let (s1, there, restarted, same1) =
        restarted_with sys content F f.interface i unit s (ground (arith, call, same)) in
      let (reached, accepted, done) = (restart_networkd_ok bus s1).0 restarted in
      (unit, static, ground (arith, call, same, kept), (s1, there, reached, (accepted, done)))
