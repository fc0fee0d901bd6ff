-- ===== src/Netconf/Dhcp/Reset.antt =====
-- What a reset of all interfaces comes to.
use platform_configure.Prelude.{
  Bytes, ◌≡◌, ◌⊎◌, contains, List, [], ◌∷◌, ◌++◌, codes, Option, none, true, arith,
}
use platform_configure.Netconf.Interface.{System, is_default, user_folder}
use platform_configure.Netconf.FileSystem.{IsFileSystem}
use platform_configure.Netconf.Dhcp.{
  getting, remove_if_there, drop_user_file, enable_dhcp, reset_all, reset_to_dhcp,
}
use platform_configure.Netconf.Dhcp.Laws.{enable_dhcp_ok}

module _ {S : Type 0} (sys : System S) (content : Bytes → S → Option Bytes) where
  -- The interfaces in order, with the state that the reset of each starts from: each has the
  -- default configuration, or its configuration lies in the user's folder and is gone in the end.
  abbrev pub IsReset : List Bytes → S → S → Type 0
  IsReset [] s after = Unit
  IsReset (name ∷ names) s after =
      let i = (sys.nu.get_interface_stats name s).0 in
      ((is_default i ≡ true)
        ⊎ (contains i.network_file user_folder ≡ true) × (content i.network_file after ≡ none))
      × IsReset names (enable_dhcp sys name s).1 after

module _ {S : Type 0} (sys : System S) (content : Bytes → S → Option Bytes)
    (F : IsFileSystem sys content) where
  -- What is gone is not made again.
  absent-remove_if_there :
      (file q : Bytes) (s : S)
      → (remove_if_there sys file s).0 ≡ none
      → content q s ≡ none
      → content q (remove_if_there sys file s).1 ≡ none
  unfolding remove_if_there
  absent-remove_if_there file q s ok gone = ground (arith, F.content-remove file q s)

  absent-drop_user_file :
      (file said q : Bytes) (s : S)
      → (drop_user_file sys file said s).0.1 ≡ none
      → content q s ≡ none
      → content q (drop_user_file sys file said s).1 ≡ none
  unfolding drop_user_file
  absent-drop_user_file file said q s ok gone =
      ground
        (arith, absent-remove_if_there file q s, F.content-restart q (remove_if_there sys file s).1)

  absent-enable_dhcp :
      (name q : Bytes) (s : S)
      → (enable_dhcp sys name s).0.1 ≡ none
      → content q s ≡ none
      → content q (enable_dhcp sys name s).1 ≡ none
  unfolding enable_dhcp
  absent-enable_dhcp name q s ok gone =
      let file = (sys.nu.get_interface_stats name s).0.network_file in
      ground (arith, absent-drop_user_file file (getting name ++ codes "OKAY\n") q s)

  absent-reset_all :
      (names : List Bytes) (result q : Bytes) (s : S)
      → (reset_all sys names result s).0.1 ≡ none
      → content q s ≡ none
      → content q (reset_all sys names result s).1 ≡ none
  unfolding reset_all
  absent-reset_all [] result q s ok gone = gone
  absent-reset_all (name ∷ names) result q s ok gone =
      let ((message, err), s1) = enable_dhcp sys name s in
      ground (
        arith,
        absent-enable_dhcp name q s,
        absent-reset_all names
            (result
              ++ codes "Resetting interface '"
              ++ name
              ++ codes "':\n"
              ++ message
              ++ codes "\n\n")
            q s1,
      )

  reset_all-IsReset :
      (names : List Bytes) (result : Bytes) (s : S)
      → (reset_all sys names result s).0.1 ≡ none
      → IsReset sys content names s (reset_all sys names result s).1
  unfolding reset_all
  reset_all-IsReset [] result s ok = tt
  reset_all-IsReset (name ∷ names) result s ok =
      let ((message, err), s1) = enable_dhcp sys name s in
      let said =
        result
        ++ codes "Resetting interface '"
        ++ name
        ++ codes "':\n"
        ++ message
        ++ codes "\n\n" in
      let enabled : (enable_dhcp sys name s).0.1 ≡ none = ground arith in
      let rest : (reset_all sys names said s1).0.1 ≡ none = ground arith in
      let file = (sys.nu.get_interface_stats name s).0.network_file in
      let (known, default_or_gone) = enable_dhcp_ok sys content F name s enabled in
      rw (enabled, reset_all)
        (
          ground (arith, default_or_gone, absent-reset_all names said file s1 rest),
          reset_all-IsReset names said s1 rest,
        )

  pub reset_to_dhcp-IsReset :
      (s : S)
      → let (names, err) = sys.nl.get_list_of_interfaces s in
        (reset_to_dhcp sys s).0.1 ≡ none
        → (err ≡ none) × IsReset sys content names s (reset_to_dhcp sys s).1
  unfolding reset_to_dhcp
  reset_to_dhcp-IsReset s ok =
      let names = (sys.nl.get_list_of_interfaces s).0 in
      let listed : (sys.nl.get_list_of_interfaces s).1 ≡ none = ground arith in
      (listed, rw (listed, reset_to_dhcp) (reset_all-IsReset names [] s (ground arith)))
