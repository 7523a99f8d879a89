-- ===== src/Lib.antt =====
-- The Kubernetes operator for Shelly devices: what it reads of a device and of its profiles, how it
-- finds drift, and what it writes.
--
-- How the parts interact. A ShellyDevice resource stands for a device on the network, a ShellyProfile
-- for a declared configuration. MatchProfile picks a device's profile; Render turns the profile into
-- the desired map of each of the device's components; Diff compares these with what the device reports
-- and returns findings. In enforce mode the components of the findings are written to the device in
-- the order of ApplyOrder. Two sections stand outside of the device's configuration: firmware and
-- schedule are compared with, and written to, its schedule jobs. A firmware update starts only in the
-- profile's window and when no other device of the fleet started one recently.
--
-- The files, and the code that each models:
-- - Base: what the modules share: native numbers, lists, Boolean tests, strings, Go's results; Base/Sort
--   is Go's stable sort, Base/Assoc a Go map.
-- - Json: the values that encoding/json decodes, reflect.DeepEqual, and maps that hold each key once.
-- - Api/Profile, Api/Device: api/v1alpha1/shellyprofile_types.go, shellydevice_types.go, conditions.go.
-- - Drift/Match: internal/drift/match.go (MatchProfile).
-- - Drift/Render: internal/drift/desired.go (Render); Render/Ui holds the plug UI component,
--   Render/Write the writes into a map.
-- - Drift/Diff: internal/drift/diff.go (Diff, diffMap, leafEqual); Drift/Report: Sections, Summarize.
-- - Drift/Order: internal/drift/order.go (ApplyOrder).
-- - Shelly/Errors, Shelly/Rpc, Shelly/Schedules: the errors of internal/shelly/client.go and the
--   calls of internal/shelly/schedule.go. A call takes the state of the world and returns a result or
--   an error beside the new state; the device's methods are the record DeviceRpc.
-- - Shelly/Client: Client.Call of internal/shelly/client.go with its retries, and internal/shelly/digest.go.
-- - Shellytest: the fake device of internal/shelly/shellytest/server.go: merge, GetConfig, SetConfig,
--   the schedule methods. It fills DeviceRpc, and enforcement is run against it.
-- - Controller/Firmware, Controller/Schedule: internal/controller/firmware.go, schedule.go;
--   Schedule/Plan is scheduleActions, Schedule/Apply is applySchedule.
-- - Shelly/Methods: internal/shelly/config.go, setauth.go, sysstatus.go, update.go, reboot.go, over the
--   client's Call.
-- - Controller/Window: internal/controller/rebootwindow.go; Controller/Update: updateInFlight and
--   claimUpdateSlot of internal/controller/firmwareupdate.go, and Update/Attempt its updateIfAvailable
--   and recordUpdateAttempt.
-- - Controller/World: the surroundings of the reconciler, and the log of what it does to them;
--   World/Logs and World/Policy carry properties of the log from the parts of a run to the whole.
-- - Controller/Reconcile: internal/controller/shellydevice_controller.go and apply.go. Reconcile/Run is
--   Reconcile, one definition for each stretch between two of its early returns; Reconcile/Messages its
--   texts; Reconcile/Status is finish, stampSysStatus and rebootIfRequested; Reconcile/Stamp is
--   stampRegistry; Reconcile/Apply is applyFindings and wifiPayload; Reconcile/Findings is the check
--   for drift and the client cache; Reconcile/Enforce is enforceAndRecheck and runEnforce.
-- - Fleet/Sanitize: internal/fleet/sanitize.go, and sanitizeLabelValue of
--   api/v1alpha1/device_helpers.go; Fleet/Registry: internal/fleet/registry.go and resolve.go.
-- - Discovery/Cidr: internal/discovery/cidr.go; Discovery/Upsert: upsert.go, with DeviceObjectName and
--   DeviceLabels of api/v1alpha1/device_helpers.go; Discovery/Sweeper: sweeper.go, stale.go and probe.go;
--   Discovery/Store: what a sweep does outside the process.
-- - Exporter: internal/exporterfeed/render.go and reconciler.go.
-- - Api/Server: the API server as the code's clients see it.
-- - Tests: the theorems at concrete inputs.
--
-- How the code's data is modelled. A Go map is an association list whose order stands for the order in
-- which one loop meets the entries. A nil pointer is none. A raw JSON text is the value that it denotes.
-- The float64 numbers are a type F with the record Floats (conversion, comparison, ParseFloat); label
-- selectors are the record Selectors, map marshalling and case folding the record Codec, time zones and
-- the local clock the record Zones. An int or int32 that the code only copies or compares is an integer
-- without a bound; the one conversion to int32, of a device's generation, wraps at 32 bits. Times count nanoseconds from Go's zero time, which is 0. Strings are compared by code
-- points, which is Go's order of bytes on valid UTF-8.
--
-- Loops are structural recursions on lists and values, and need no fuel, but for two. The loop
-- of postRetrying runs at most three times, since it stops at the second retry, and gets fuel for three.
-- The loop of ExpandCIDRs over a prefix's addresses appends a host in all rounds but three, and stops with
-- an error at the 4097th host; it gets fuel for 4100 rounds.
--
-- The reconciler's surroundings are the record Env: the devices' answers to RPC calls, the API server,
-- the clock and the random numbers, each an arbitrary step on a state. A step that a device or another
-- client of the API can see is logged. An update patch is the pair of the base and the new object, and
-- the server answers with any object or with an error. The reader and the recorder are set, as the
-- manager sets them; of an event the type and the reason are logged, not its text. The pointer that finish
-- keeps to the earlier condition leads to the condition that SetStatusCondition changes in place, and
-- decoding the patch's answer is taken to leave that one.
--
-- What is not modelled: the watches of SetupWithManager, the options of NewClient, the
-- ticker of the sweeper, the dashboard and metrics.
pub mod Base
pub mod Json
pub mod Api
pub mod Drift
pub mod Fleet
pub mod Shelly
pub mod Shellytest
pub mod Controller
pub mod Discovery
pub mod Exporter
pub mod Tests
