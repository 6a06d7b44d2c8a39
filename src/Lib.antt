-- ===== src/Lib.antt =====
-- Verification of nano-southbound, the library that provisions the optical line terminals (OLTs) of
-- several vendors over CLI, SNMP, NETCONF and gNMI.
--
-- The program has a vendor-neutral model of subscribers, service tiers and profiles (model/, types/),
-- helpers that the vendors share (vendors/common/), one adapter for each vendor (vendors/<name>/), and
-- drivers that carry commands to a device (drivers/). An adapter validates what a caller asks for,
-- turns it into CLI commands, gives these to a driver as one batch, and reads the outputs back.
-- Modelled are the model, the profile types, the shared helpers, of the V-SOL adapter its four
-- profile managers, its Wi-Fi, the bandwidth profiles, the application of
-- profiles, bulk provisioning and the SNMP indexes, the errors of C-Data, the
-- factory of drivers, the driver that talks to a device over SSH, and the one that simulates a device.
--
-- Files and code:
--   Go               what the code uses of Go's library: Text is a string as the list of its bytes
--                    (package strings), Number is strconv.Atoi and Itoa on a 64-bit int, Quote is
--                    the verb %q on ASCII, Map a map as an association list, Result an error return
--   Types/Check      the checks of ranges and of the class of service in types/line_profile.go
--   Types/VlanList   types/line_profile.go: parseVLANList and LineProfileMvlan.Validate
--   Types/LineProfile, Types/OnuProfile
--                    types/line_profile.go, types/onu_profile.go: the profiles and their Validate.
--                    Validate of a line profile stores the VLANs that it parses, so it returns the
--                    profile it leaves.
--   Common           vendors/common/: Ansi and Sanitize are text.go, Annotations is annotations.go,
--                    Snmp is snmp.go
--   Model            model/: Subscriber is subscriber.go with onu_binding.go, ServiceTier is
--                    servicetier.go. A method with a pointer receiver that assigns returns the
--                    subscriber it leaves.
--   Vsol/Session     how a method of vendors/vsol talks to the device: the CLI executor is a function
--                    from a batch and the state of the device to outputs or an error and the next
--                    state, an argument of every method; a method is a state monad with errors
--   Vsol/ProfileText vendors/vsol/onu_profile.go and dba_profile.go: sanitizeProfileOutput,
--                    validateProfileName, cliOutputAt, detectProfileCLIErrors and the regular
--                    expressions in the forms that occur
--   Vsol/DbaProfile, Vsol/TrafficProfile, Vsol/LineProfile, Vsol/OnuProfile
--                    the files of these names in vendors/vsol/, with Vsol/NextId for the choice of a
--                    new id. The children Lines and Listing read outputs, Manager has the methods.
--   Vsol/SnmpIndex   vendors/vsol/snmp_oids.go: the ONU and VLAN indexes and the PON ports
--   Vsol/Bandwidth   vendors/vsol/adapter.go: findOrCreateBandwidthProfiles, over the profiles above. The
--                    cache, which the code passes as a pointer, is a part of the state.
--   Vsol/Provisioning vendors/vsol/adapter.go: ApplyProfile and BulkProvision, with the profiles and
--                    results of types/driver_v2.go in Types/DriverV2
--   Vsol/Wifi        vendors/vsol/wifi.go: Outputs has what is read from outputs and redacted, Readback
--                    the expressions on running configurations, Commands the steps, Running
--                    runWifiSteps, Device the device and its inventory, Profiles the ONU, its
--                    profile and the cache of command profiles, Methods and Manager the methods
--   Types/Wifi, Types/Equipment
--                    types/wifi.go and the constants and configuration of types/types.go
--   Cdata            vendors/cdata/errors.go: ErrorPatterns is the table, Errors the functions
--   Factory          factory.go
--   Drivers/Cli      drivers/cli/: Prompt has the expressions and cleanOutput of expect.go, Session the
--                    rest of it, Driver and Subscribers driver.go. The terminal library and SSH are
--                    records of functions on a state. Executing makes the driver an executor as in
--                    Vsol/Session.
--   Drivers/Mock     drivers/mock/driver.go: State has the types and what the methods compute, Calls
--                    the methods, one function each. A call takes the clock, the random numbers and
--                    the end of its context in a World. Outputs has
--                    ExecCommand and ExecCommands, with the texts that they answer.
--   Tests            the theorems at concrete inputs
-- A child module next to these has the lemmas and theorems of its parent.
--
-- Bounds: an int has 64 bits; where the code adds or multiplies, the wrap-around is written out. The
-- loops are structural recursions on the list or the text they read; StripANSI skips as many bytes as
-- the match is long. The range loop of parseVLANList takes as many steps as the range has numbers; it
-- does not end if the range ends at the largest int, and there the model has the error `endless`.
-- The loop of Execute that passes pagers takes fuel, and has no result where that is used up; a number
-- greater than that of the pagers is enough.
--
-- Not modelled: the other adapters and the rest of the V-SOL adapter; the drivers for NETCONF, gNMI and
-- SNMP, which are clients of network libraries; time limits and the locks of a session, since a call
-- is one function of its state; a nil configuration of the V-SOL adapter; text outside ASCII in case
-- folding, blanks and quoting; floating point, which is a parameter of Common/Snmp and Drivers/Mock.
pub mod Prelude
pub mod Go
pub mod Model
pub mod Types
pub mod Common
pub mod Vsol
pub mod Drivers
pub mod Cdata
pub mod Factory
pub mod Tests
