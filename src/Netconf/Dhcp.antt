-- ===== src/Netconf/Dhcp.antt =====
-- enableDHCP and resetToDHCP of netconf.go.
pub mod Laws
pub mod Reset
use platform_configure.Prelude.{
  Bytes, Err, codes, contains, List, [], ◌∷◌, ◌++◌, none, some, if◌then◌else◌,
}
use platform_configure.Netconf.Interface.{InterfaceData, System, Reply, is_default, user_folder}

abbrev pub getting : Bytes → Bytes
getting name = codes "Getting interface stats for '" ++ name ++ codes "'..."

abbrev not_found : Bytes → Bytes
not_found name = codes "\nERROR: Interface '" ++ name ++ codes "' not found"

module _ {S : Type 0} (sys : System S) where
  -- `if _, err := os.Stat(file); err == nil { err = fs.Remove(file) … }`
  unfoldable pub remove_if_there : Bytes → S → Err × S
  remove_if_there file s = elim (sys.os_stat file s) [
    | some e ↦ (none, s)
    | none ↦ sys.fs.remove file s
  ]

  -- The branch for a file in the user's folder.
  unfoldable pub drop_user_file : Bytes → Bytes → S → Reply × S
  drop_user_file file said s =
      let detected = said ++ codes "Custon Config detected: '" ++ file ++ codes "'\n" in
      let (err, s1) = remove_if_there file s in
      elim err [
        | some e ↦ ((detected, some (codes "ERROR removing '" ++ file ++ codes "'\n")), s1)
        | none ↦
            let removed = detected ++ codes "Successfully removed '" ++ file ++ codes "'\n" in
            let (failed, s2) = sys.db.restart_networkd s1 in
            let restarted : Bytes = elim failed [
              | some e ↦ removed ++ codes "SUCCESS, PLEASE REBOOT!\n"
              | none ↦ removed
            ] in
            (
              (
                restarted ++ codes "SUCCESS, using DHCP.\nPLEASE REBOOT NOW ('sudo reboot')!\n",
                none,
              ),
              s2,
            )
      ]

  unfoldable pub enable_dhcp : Bytes → S → Reply × S
  enable_dhcp name s =
      let (i, err) = sys.nu.get_interface_stats name s in
      elim err [
        | some e ↦ ((getting name, some (not_found name)), s)
        | none ↦
            let said = getting name ++ codes "OKAY\n" in
            if is_default i
            then ((said ++ codes "SUCCESS: Already using DHCP\n", none), s)
            else if contains i.network_file user_folder
            then drop_user_file i.network_file said s
            else (
              (said, some (codes "Sorry, no idea how to handle '" ++ i.network_file ++ codes "'.")),
              s,
            )
      ]

  -- The loop of `resetToDHCP`, with the result so far. It stops at the first error.
  unfoldable pub reset_all : List Bytes → Bytes → S → Reply × S
  reset_all [] result s =
      ((result ++ codes "\nSUCCESS.\n\nPLEASE REBOOT NOW ('sudo reboot')!\n", none), s)
  reset_all (name ∷ names) result s =
      let ((message, err), s1) = enable_dhcp name s in
      let said =
        result
        ++ codes "Resetting interface '"
        ++ name
        ++ codes "':\n"
        ++ message
        ++ codes "\n\n" in
      elim err [ some e ↦ ((said, some e), s1) | none ↦ reset_all names said s1 ]

  unfoldable pub reset_to_dhcp : S → Reply × S
  reset_to_dhcp s =
      let (names, err) = sys.nl.get_list_of_interfaces s in
      elim err [ some e ↦ (([], some e), s) | none ↦ reset_all names [] s ]
