-- ===== src/Netconf/Dhcp/Laws.antt =====
-- What `enableDHCP` and `resetToDHCP` do to the files.
use platform_configure.Prelude.{
  Bytes, ◌≡◌, ◌⊎◌, refl, contains, bytes_eq, bytes_eq_refl, eq_of_bytes_eq, List, [], ◌∷◌, ◌++◌,
  codes, Err, Option, none, some, true, false, arith,
}
use platform_configure.Netconf.Interface.{System, is_default, user_folder}
use platform_configure.Netconf.FileSystem.{IsFileSystem}
use platform_configure.Netconf.Dhcp.{
  getting, remove_if_there, drop_user_file, enable_dhcp, reset_all, reset_to_dhcp,
}

module _ {S : Type 0} (sys : System S) (content : Bytes → S → Option Bytes)
    (F : IsFileSystem sys content) where
  content-remove_if_there :
      (file q : Bytes) (s : S)
      → bytes_eq file q ≡ false
      → content q (remove_if_there sys file s).1 ≡ content q s
  unfolding remove_if_there
  content-remove_if_there file q s h = ground (arith, F.content-remove_other file q s)

  content-drop_user_file :
      (file said q : Bytes) (s : S)
      → bytes_eq file q ≡ false
      → content q (drop_user_file sys file said s).1 ≡ content q s
  unfolding drop_user_file
  content-drop_user_file file said q s h = ground (
    arith,
    content-remove_if_there file q s h,
    F.content-restart q (remove_if_there sys file s).1,
  )

  -- A path in the user's folder differs from one that is not.
  differs :
      (file q : Bytes)
      → contains file user_folder ≡ true
      → contains q user_folder ≡ false
      → bytes_eq file q ≡ false
  differs file q h k = ground (arith, eq_of_bytes_eq file q)

  pub enable_dhcp_elsewhere :
      (name q : Bytes) (s : S)
      → contains q user_folder ≡ false
      → content q (enable_dhcp sys name s).1 ≡ content q s
  unfolding enable_dhcp
  enable_dhcp_elsewhere name q s h =
      let file = (sys.nu.get_interface_stats name s).0.network_file in
      ground
        (arith, differs file q, content-drop_user_file file (getting name ++ codes "OKAY\n") q s)

  content-reset_all :
      (names : List Bytes) (result q : Bytes) (s : S)
      → contains q user_folder ≡ false
      → content q (reset_all sys names result s).1 ≡ content q s
  unfolding reset_all
  content-reset_all [] result q s h = refl
  content-reset_all (name ∷ names) result q s h =
      let ((message, err), s1) = enable_dhcp sys name s in
      ground (
        arith,
        enable_dhcp_elsewhere name q s h,
        content-reset_all names
            (result
              ++ codes "Resetting interface '"
              ++ name
              ++ codes "':\n"
              ++ message
              ++ codes "\n\n")
            q s1 h,
      )

  removed :
      (file : Bytes) (s : S)
      → (remove_if_there sys file s).0 ≡ none
      → content file (remove_if_there sys file s).1 ≡ none
  unfolding remove_if_there
  removed file s h = go (sys.os_stat file s) refl
    where
      go : (e : Err) → sys.os_stat file s ≡ e → content file (remove_if_there sys file s).1 ≡ none
      go (some e) p = ground (arith, F.content-stat file e s)
      go none p = ground (arith, F.content-remove file file s, bytes_eq_refl file)

  -- A reset of all interfaces, complete or cut short by an error, changes no file outside the
  -- user's folder. Assumed: removing touches one file, and a restart of networkd none.
  pub reset_to_dhcp_elsewhere :
      (q : Bytes) (s : S)
      → contains q user_folder ≡ false
      → content q (reset_to_dhcp sys s).1 ≡ content q s
  unfolding reset_to_dhcp
  reset_to_dhcp_elsewhere q s h =
      ground (arith, content-reset_all (sys.nl.get_list_of_interfaces s).0 [] q s h)

  dropped :
      (file said : Bytes) (s : S)
      → (drop_user_file sys file said s).0.1 ≡ none
      → content file (drop_user_file sys file said s).1 ≡ none
  unfolding drop_user_file
  dropped file said s h =
      ground (arith, removed file s, F.content-restart file (remove_if_there sys file s).1)

  -- When enabling DHCP returns no error, the interface's stats were read, and it has the default
  -- configuration, or its configuration lies in the user's folder and is gone.
  -- Assumed: files are removed as documented, os.Stat fails only where there is no file, and a
  -- restart of networkd writes no file.
  pub enable_dhcp_ok :
      (name : Bytes) (s : S)
      → let (i, err) = sys.nu.get_interface_stats name s in
        (enable_dhcp sys name s).0.1 ≡ none
        → (err ≡ none)
          × ((is_default i ≡ true)
              ⊎ (contains i.network_file user_folder ≡ true)
                × (content i.network_file (enable_dhcp sys name s).1 ≡ none))
  unfolding enable_dhcp
  enable_dhcp_ok name s h =
      let file = (sys.nu.get_interface_stats name s).0.network_file in
      ground (arith, dropped file (getting name ++ codes "OKAY\n") s)
