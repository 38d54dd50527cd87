-- ===== src/Lib.antt =====
-- A model of Cooperative Systems: Spaces, a makerspace manager written in Rust: a server that keeps
-- members, tools, doors and access rules in a database, and edge coordinators beside the doors and
-- machines that decide badge scans and power leases from what the server has sent them.
--
-- Prelude        shared names: Boolean tests, the interface of equality, lists, searches, sorting,
--                maps as functions or association lists, signed integers over the native numbers.
-- Cmi5           the cmi5 crate: training packages.
--   Statement    cmi5/src/statement.rs: the xAPI statements; Verbs and Categories are its constants.
--   Validation   cmi5/src/validation.rs: `validate_cmi5_statement`, `SessionState::apply`,
--                `evaluate_move_on`; Sequence is about sequences of statements, Credit about what an
--                outcome rests on.
--   Manifest     cmi5/src/manifest.rs: the tree of a course. Events has the reader's events and what is
--                read off a leaf, Parse, ParseUnits and ParseBlocks the loops, Write the writer,
--                Delivery what the reader is given for what was written, RoundTrip what is written and
--                read again.
--   Conformance  cmi5/src/conformance.rs: `validate_course_structure`, over an explicit list of the
--                violations; Text has `is_iri`, Conformant the rules.
--   Launch       cmi5/src/launch.rs: the query of a launch, with the reader of an address that Reading
--                has and RoundTrip speaks of.
-- CssLib         css_lib, the crate that both sides share.
--   Wire         css_lib/src/wire.rs: the payloads about modules, power and resource policy.
--   Bypass       css_lib/src/bypass.rs: what a change of liveness and unauthorized power are.
-- Server         the server crate.
--   Schedules    server/src/schedules.rs: weekly windows, `validate`, `matches_at`, `active_until`.
--   Rbac         server/src/rbac.rs: the role graph (`from_rows`), `closure`, permissions, levels;
--                Cycles has `has_cycle`, Admin the requests of server/src/api/rbac_admin.rs over the
--                tables of server/src/database.rs.
--   Rules        server/src/models/doors.rs and server/src/doors.rs: rule kinds and effects, the
--                schedule gate, `expand_rules_at`, `open_access_hold_until_at`.
--   Access       server/src/access_engine.rs: `may`; `DoorService::evaluate` of
--                server/src/doors.rs and `user_is_authorized_for_tool` of server/src/database.rs.
--   Compile      server/src/doors.rs: `compile_state_for` with a door's strike profile, and
--                `republish_changed`, the schedule's tick.
--   Membership   server/src/membership.rs: the ledger of dues, `record_credit`, the renewal loop
--                `settle_renewal`, `apply_role`, `run_cycle`, with the queries of
--                server/src/database.rs that they make; Anniversary, Balance, Renewal, Cycle, Admins,
--                Entitlement and Payments are about one part of it each. Assignments has the requests of
--                server/src/api/admin.rs that give and take roles, LastAdmin what they keep.
--   Billing      server/src/tool_billing.rs: the gates of a metered tool, `open_session` and its
--                hold, `record_usage`, `settle_open_session_for_tool`, the sweep; Charges, Holds,
--                Backing, Settling and Runs are about the charge against the hold.
--   Sweep        server/src/session_sweep.rs: the pass over tools and rooms that nobody stopped.
--   ToolRequests server/src/api/toolguard.rs: `activate_tool`, and in Stopping `deactivate_tool`,
--                `report_tool_usage` and `boot_reset`; Activation, Refusals, Answers and Reports are
--                about them.
--   Training     server/src/cmi5.rs: in Launches `create_launch`, `consume_fetch`, `resolve_session`
--                and `assign_au_step`, in Statements `record_statement`; Calls, Earned, Credit and
--                Launched lead to what a granted step rests on, Grants and SingleUse to what happens
--                once.
--   CalendarWindow  server/src/calendar/window.rs: two dates as a window of instants.
--   Throttle     server/src/throttle.rs: lockouts after failed attempts, with what `login` of
--                server/src/api/auth.rs does to them.
--   Bypass       server/src/bypass.rs: the sweep over the bound modules, `sweep_once`.
-- Edge           the edge crate.
--   Modules      edge/src/modules.rs: the record `ModuleState` is the Rust `Inner`; sessions,
--                readings and liveness. Interlocks has `evaluate`, Leases has `renew` and
--                `lease_valid`, Watchdog has `tick`; Sessions and Latches are about sequences of them.
--   Power        edge/src/power.rs: lockout, draws and the local trip.
--   Resources    edge/src/resources.rs: `decide`, sessions, and in Ingest the policy's payloads; Holds
--                has `hold_pulse_ms` of edge/src/doors.rs and the holds of `tick`; Cadence is about
--                which of them are sent.
--   ToolGuard    edge/src/toolguard.rs: the cached allow-list and `check_access`.
-- Deployment     both sides: a snapshot that `compile_state_for` made, applied by `apply_doors_alias`.
--
-- How the parts interact: on the server `may` and `expand_rules_at` read the same rules through the
-- same schedule gate (`schedule_state_at`, `rule_fires`), which reads `matches_at`; role rules go
-- through `level_of_name`; the requests of Rbac load its graph again after each write. `may` answers
-- one person, `expand_rules_at` fills the card lists of a snapshot. On the edge `decide` answers a
-- scan from the policy that was last applied, after asking Power; a yes opens a session in Modules,
-- and while it lasts the watchdog leases the bindings.
-- Membership and Billing write one ledger: dues and payments are the one's, the charges of tools the
-- other's; Sweep settles through Billing what nobody stopped. ToolRequests asks Access and then
-- Billing before a tool is started, and settles through Billing when it is stopped. Training hands
-- each statement to Cmi5 with the session's own learner, registration and unit.
--
-- Conventions. Instants are nanoseconds since the epoch and durations are nanoseconds, as natural
-- numbers, so instants before the epoch are left out; `now - t >= d` is written `t + d <= now`.
-- Identifiers (Uuid) are numbers where the source parses them and texts where it keeps them as texts;
-- i16 and i32 values are integers in `ℤ`. A HashMap is a function to `Option`, or an association list
-- where the program walks over it; a set is a test. A method that changes its object takes the state
-- and returns it, with its answer beside it. Code that is not the repository's is a parameter: time
-- zones (`Tz`, with chrono's laws in `TzLaws`), the JSON of a schedule (`Clockwork.parse_intervals`),
-- chrono's months (`Calendar`, with `CalendarLaws`), BigDecimal's rounding (`Rounding`, with
-- `RoundingLaws`), the zone of the calendar's window (`Zone`), the texts of a Uuid and of an instant
-- and the card's digest (`UuidText`, `Outside`), floating point (`Amperes`, `Floats`), and the XML
-- library (`Entities`, the pieces of a text, which amount to it by `Delivers`, and the value read for an
-- attribute, which is the written one by `KeepsPlain` where it has no tab or line break). Locks are left
-- out: an operation is one step, also where the source takes its lock more than once (`renew`, `tick`,
-- `decide`) or checks and writes in two transactions (the requests about roles).
--
-- Fuel. The chaining loop of `active_until` has one round for each interval of the day: each round
-- leaves fewer intervals that end later. The loop of `closure` has one round for each role to start
-- with and for each edge: a role seen for the first time uses up its edges. A call of `dfs` in
-- `has_cycle` has one unit more than there are keys: each call below it marks one more of them.
-- The loops that read a manifest have one unit for each event that they take themselves:
-- `manifest_fuel` counts the labels, the objectives and the nodes of the course that was written.
-- The renewal loop keeps the source's own cap of 1200 rounds; a round moves the anniversary on by 28
-- days or more.
--
-- Not modelled: database queries but for those that a model names, failures of the database, the
-- other HTTP handlers, the XML and zip formats, MQTT and WebSocket transports, logging, byte parsers
-- of payloads, navigation and sites, accounts and devices, third-party cryptography, and the frontends.
pub mod Prelude
pub mod Cmi5
pub mod CssLib
pub mod Server
pub mod Edge
pub mod Deployment
