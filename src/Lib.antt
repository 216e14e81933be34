-- ===== src/Lib.antt =====
-- The simulator of SSH network devices, rcfg-sim: a fleet of devices that answer over SSH as Cisco
-- IOS, Junos, Ciena, Infinera or Cisco ONS equipment, with faults and misbehaviour on purpose.
--
-- A client opens a channel to a device. The device's driver greets it, and then prompts, reads a
-- line or a TL1 command, delays, dispatches the command to a response, and emits the response, until
-- the client leaves, a command closes the session, or a fault cuts it.
--
-- Text, Text/Case, Text/Split, Text/Decimal: what the sources use of Go's strings, bytes and fmt.
-- Command, Resolve, Response: internal/sshsrv/dispatch.go. `resolve` is ResolveCommand, `dispatch` is
--   Dispatch; Response/Canned has the two canned texts.
-- Channel: the SSH channel as io.ReadWriter, and the byte loop of both readers. The client's bytes
--   are a list; `room` bounds what it still takes, after which a write fails short.
-- Line: readLine of internal/sshsrv/session.go; Line/Editing has a plain line editor to compare it
--   with, Line/Hidden is about what is written while a password is typed.
-- Tl1/Read, Tl1/Grammar, Tl1/Block, Tl1/Sections: internal/sshsrv/tl1.go (readTL1; parseTL1,
--   parseActUser, unquoteTL1, tidIsLocal; the tl1… writers; indexSections).
-- Drivers: the TL1 drivers. Drivers/Node has what the three have in common, the session, the login
--   gate and the RTRV-EQPT answer; Drivers/Ciena, Drivers/Infinera and Drivers/CiscoOns are
--   driver_ciena.go, driver_infinera.go and driver_cisco_tl1.go of internal/sshsrv; Drivers/Vendor
--   puts them side by side. Drivers/Login is about the login over a run of commands, Drivers/Relay
--   goes from a gateway's data file to the answer for a node behind it.
-- Fault: internal/fault/inject.go. A float64 is NaN, an infinity, or a number of units of 2^-1074; a
--   generator is the sequence of numbers that it will draw.
-- CmdFiles: internal/sshsrv/cmdfiles.go, over a disk given by two functions.
-- Session: the state of a session and writeAndCount (internal/sshsrv/session.go); Session/Malformed is
--   writeMalformed, Session/Delay is applyResponseDelay and hang, Session/Emit is emit (the last three
--   of internal/sshsrv/driver.go).
-- Serve: the loops. Serve/Cisco is driver_cisco.go, Serve/Junos is driver_junos.go, Serve/Tl1Shell is
--   tl1Serve of tl1.go. Every turn of a loop is a function to the next state or to a return.
-- Registry: the registry of drivers, in internal/sshsrv/driver.go, and requireSSHAuth.
-- Server: handleConn of internal/sshsrv/server.go for all connections together, under the session
--   cap; what clients, handshakes and sessions do is a list of events. Server/Start is New and
--   resolveProfiles, Server/Listeners is Start and closeListeners, Server/Auth the password
--   callback and isAuthFailure, Server/Requests is handleSession, Server/Logging is logProfiles.
-- Loader: internal/configs/loader.go. Loader has the manifest's rows, as encoding/csv gives them, and
--   Loader/Mapping the mapped files, of which it keeps the count.
-- Profiles: internal/profile/profile.go, Profiles/Assign the seeded assignment. time.ParseDuration and
--   strconv.ParseFloat are arguments.
-- Generator: of internal/configs/generator.go, stratifiedCounts, buildAssignments, and from Run the
--   checks of the sizes and the place of every device; there a model is its place in modelOrder.
--   Generator/Models is the registry of models, Generator/Distribution is parseDistribution,
--   Generator/Workers the jobs of Run, Generator/Manifest the rows that Run writes, Generator/Run
--   is Run. Generator/Random and Generator/Address are internal/configs/random.go. Generator/Shelf
--   and Generator/Gateway are internal/configs/ciena.go, Generator/OpticalNode is
--   internal/configs/optical_tl1.go. Generator/Cisco is internal/configs/build.go with the records
--   of data.go (Build is buildDeviceData). The builders are in a monad of draws, in the order of
--   the code; the source of a seed and SHA-256 are arguments.
-- Words, Floats: uint64 with its wrap-around, and the operations on float64 of the two parts above.
-- Generator and Loader meet in Loader/Own: the devices that a listener loads from a run's manifest.
-- Tests: runs on concrete inputs.
--
-- Strings and byte slices are lists of numbers, of which the sources' literals are ASCII; ToUpper and
-- ToLower act on ASCII letters. A buffer that grows at its end is kept with the last byte first. nil
-- and empty slices are one, as only lengths are looked at. Time stamps are arguments. Metrics and
-- outcome are taken as present, as the server always sets them. How a hang ends (its timer, the client,
-- the server's shutdown) is a field of the configuration.
--
-- Loops on an input are recursion on its list. The loop over the pages of RTRV-TIDMAP has as fuel
-- the number of its TIDs, which is enough since a page that is not the last has ten. The loops of
-- the drivers have a fuel; one more than the number of the client's reads is enough, since a turn
-- that goes on takes at least one. A new VLAN number and a public address are drawn again until
-- they will do, on fuel: for a VLAN, a number of draws in which each number comes up is enough.
-- Go's int is 64 bits wide: the model writes the wrap-around out where the source's numbers come
-- near it (infineraNodeID), and elsewhere takes sizes to be below 2^63.
--
-- Not modelled: accept, Shutdown, the host key and the handshake itself of internal/sshsrv/server.go
-- (I/O and waiting), the collectors of internal/metrics, the command lines of cmd, and of
-- internal/configs the templates and the printed summary.
-- net.ParseIP is taken on dotted IPv4 addresses; the counts, indices and seeds are not negative.
pub mod Base
pub mod Text
pub mod Command
pub mod Registry
pub mod Resolve
pub mod Response
pub mod Channel
pub mod Generator
pub mod Loader
pub mod Words
pub mod Floats
pub mod Profiles
pub mod Line
pub mod Tl1
pub mod Drivers
pub mod Fault
pub mod CmdFiles
pub mod Session
pub mod Server
pub mod Serve
pub mod Tests
