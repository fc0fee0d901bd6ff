-- ===== src/Lib.antt =====
-- The command-line tools of the experimental platform that are written in Go (folder go/).
--
-- Text is a list of bytes (Prelude/Text), with the functions of package strings that the tools
-- call. A Go error is an Option of its message. Each tool works on an unknown state `S` of the
-- machine: what it calls outside the repository is a record of operations on `S`, and what the
-- theorems assume of these is a record of laws.
--
-- zfs-snapshots (go/zfs-snapshots), module Zfs:
--   Moment      time.Now().Format(timeFormat)
--   Interface   ZFSDriver, the file calls of package os, and what the Go runtime leaves open
--   Newest      newest
--   Send        sendSnapshots; its children say what is on disk after it fails and after it succeeds
--   Snapshot    TakeSnapshot and cleanup; its children say what a run leaves in the pool, also with
--               a negative keep (Snapshot/Negative) and a name that is taken (Snapshot/Collision)
--   GoZfs       the driver of go_zfs.go, over package go-zfs and os/exec
--   Main        main.go
--   Pool, Disk  the assumed laws of ZFS and of files; Memory, a machine that meets them
--   Whole       main over the driver of go_zfs.go, with the assumed laws of the zfs commands
--               (GoZfs/Pool); Commands, such commands on that machine
--
-- A loop over a slice is a recursion on the list, so no fuel is needed. Logging, f.Sync and f.Close
-- are left out: the program does not look at their effect. Lengths are natural numbers; the bound
-- that cleanup computes from a negative keep is one past which an int of 64 bits wraps, and victims
-- treats that case.
--
-- netconf (go/netconf), module Netconf:
--   Interface    netLink, netUtil, dbusUtil and fsUtil of netconf.go, as the record System
--   Linux        netlink_linux.go, over the packages netlink, netutil, go-systemd/dbus, io/ioutil and
--                os; Linux/Whole, the whole tool over them
--   Mocs         mocs.go, the test doubles
--   Report       getNetInterfaceData, reportOnInterface, showConfig and the report's template
--   Dhcp         enableDHCP and resetToDHCP
--   Static       parseMap, setStaticConfig and the unit's template; Static/Again, what it makes of
--                the addresses that it has written
--   CommandLine  switchByCommandline and main
--   FileSystem   the assumed laws of files; Memory, a machine that meets them
-- Static and Linux work on what the packages net and strconv make of text: module Net has Atoi,
-- ParseIP (as before Go 1.17, with leading zeros), IP.String, IPNet.Contains and IPNet.String. The
-- templates are written as the concatenations that they print; neither can fail to parse. Package
-- flag parses the command line. Errors of strconv are written for text that needs no quoting.
-- A query of netLink or netUtil leaves the machine as it is.
--
-- rabbitmq-manager (go/rabbitmq-manager), module Rabbit:
--   Interface  rabbitConnector and skvsConnector. The *http.Response of a call of the broker is its
--              status code, which no code looks at
--   Settings   deleteSettings, createSettings, listSettings, switchByCommandLine and main
--              (Settings/Laws, Settings/Runs)
--   Session    realRabbit and realSKVS: the connections, with their retries (Session/Connecting,
--              Probing, Waiting, Finding)
--   Whole      the settings over the real connectors (Session/Steady, Session/Backing)
--   Settings/Accounts, the assumed laws of the broker and the store; Memory, a backend that meets
--              them
-- The loops of connect (200 rounds) and checkAvailability (100) are recursions on the number of
-- rounds that the code gives.
--
-- skvs_cli (go/skvs_cli), module SkvsCli: main.go. SkvsCli/Laws has the assumed laws of the store, in
-- which deleting a key takes what is below it too.
--
-- platform-feedback (go/platform-feedback), module Feedback: getFailedUnits, getCommandsOutput,
-- getHostname, tarFeedbackFile and tarTheData of main.go.
--   Main          createOutputArchive and main. What main does once the archive is open, its deferred
--                 calls included, is a list of tasks that is worked off
--   Main/Signals  rmOutOnCtrlC as a step relation: between any two tasks the handler may remove the
--                 archive, and then end the process. A signal that comes while a task runs counts as
--                 coming after it
--   Main/Files    the assumed laws of files; Memory, a machine that meets them
-- log.Fatal ends the process with status 1 and without the deferred calls, a panic with status 2
-- after them. The proofs are in Main/Outcome, Main/Reports, Main/Leftovers and
-- Signals/Archive.
--
-- Not modelled: the bytes of the gzip stream, which the libraries write; netlink_other.go, four
-- declarations for other systems; and what is not Go (services/, scripts/, config/ and others).
pub mod Prelude
pub mod Feedback
pub mod Net
pub mod Netconf
pub mod Rabbit
pub mod SkvsCli
pub mod Zfs
mod Tests
