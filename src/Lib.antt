-- ===== src/Lib.antt =====
-- Home energy control: who may write to the inverters of a site, and when.
--
-- Two programs share a site: the add-on (ha_spark/) and the integration
-- (custom_components/ha_spark/). A durable handshake names the one that owns it. The owner holds an
-- authority state: a committed mode (Observe, Protect or Optimise), a transition with its steps, a
-- manual session, a fallback, and the records of holds and exports. Every write asks it.
--
-- Files, and the code that they model:
--   Authority: custom_components/ha_spark/authority_store.py, the records; Authority/Valid, what the
--     models check.
--   AuthorityFiles: custom_components/ha_spark/authority.py, `AuthorityStore` over its two files.
--   ExportLog: custom_components/ha_spark/native_export_log.py, the export transition log.
--   Deadline, Transitions: custom_components/ha_spark/transitions.py; `manual_deadline`, and
--     `propose_transition` with one definition for each of its branches.
--   Export: `record_is_live` and the look-ups of custom_components/ha_spark/native_export.py, and
--     `_live_record` of native_write.py.
--   Tripwire: custom_components/ha_spark/native_tripwire.py; `step`, and `async_trip` up to its save.
--     Tripwire/Expiry: `async_expire_supervisions` of coordinator.py.
--   Control: custom_components/ha_spark/authority_control.py; `async_request`, `_advance`,
--     `async_start`, `async_fallback`, `async_new_session`.
--   Addon, Addon/Disk: ha_spark/authority.py, the add-on's authority store and its two files.
--   Addon/Link: the part of the add-on's snapshot handler (ha_spark/api/server.py) and of its summary
--     (ha_spark/api/contract.py) that carries the handshake.
--   Ownership: custom_components/ha_spark/ownership.py and `authority_owner` of authority.py;
--     Ownership/Exclusion is the system of both programs, as a step relation.
--   SupplyGuard: custom_components/ha_spark/supply_guard.py; `step`, by its phases.
--   Hold: `advance_ev` and `in_window` of custom_components/ha_spark/native_hold.py.
--   NativeSlots: custom_components/ha_spark/native_verify.py, and native_slots.py without `window`, over
--     an interface for the registers and the permissions. NativeVerify: the confirmation of
--     native_verify.py for any caller.
--   NativeWrite: custom_components/ha_spark/native_write.py, the conditions of every write
--     (`_refusal`, `_export_write_reason`). NativeWrite/Commit: `_async_commit`, one current of one
--     inverter. NativeWrite/Transaction: `_async_transaction`, which moves the shares of a connection.
--   Topology: the limits and the setpoints of custom_components/ha_spark/topology.py. Clamp:
--     `clamp_intent` of clamp.py, which the transaction asks for each current.
--   SolisTransport: custom_components/ha_spark/solis_transport.py, `PymodbusTcpTransport`: its callers,
--     its worker, its connection and its close, as steps in any order.
--   SolisFrames: the schedule and the numbers of custom_components/ha_spark/solis_frames.py.
--   Clock: custom_components/ha_spark/clock_sync.py; Clock/Sync: `async_sync` of native_clock.py;
--     Clock/Tick: its `check_drift` and `async_tick`.
--   NativeFallback: custom_components/ha_spark/native_fallback_control.py, `_evaluate` and what it
--     calls.
--   Solcast, Solcast/Request: custom_components/ha_spark/solcast_budget.py, `SolcastBudget`.
--   Commands: the envelopes of ha_spark/api/commands.py. Commands/Queue: its `CommandQueue`.
--     Commands/Consumer: `CommandConsumer` of custom_components/ha_spark/command_dispatch.py.
--   SocTrust: custom_components/ha_spark/soc_trust.py, `check_soc` and `SocMonitor`.
--   Float: the operations on floats that the code uses, as an interface.
--   Prelude: shared names, tests, lists and integers. Each Examples file runs its component.
--
-- State is passed explicitly. What a call that waits may find afterwards (the answers of the device,
-- the disk and other tasks) is an argument. An instant counts microseconds of UTC. A time zone and
-- floats are parameters; a law that a theorem needs is a hypothesis.
--
-- Fuel: `trim` gets one round more than it has rows, since each round that is over a cap drops one.
-- The search of `manual_deadline` for a valid wall time gets 1441 minutes, since a gap of a clock is
-- shorter than a day. The bisection of `last_clock_change` gets 21600 rounds, one for each second of
-- its six hours, though each halves what is left. `_advance` needs none: each round takes a step off
-- the list.
--
-- `charge` runs on the answers that its rounds get; where they end, the call still waits.
--
-- Not modelled: the commands, the export groups and the saved records of native_write.py, the charge
-- window of native_slots.py, the notices of native_clock.py, the rest of the holds, the
-- points of the Solis frames, the validation of the topology and of the fallback schedule, the
-- planner and scheduler of the add-on, and the glue to Home Assistant, HTTP and the command line. In
-- the system of both programs, a retry of the add-on's first initialisation is left out, and a
-- snapshot is treated in one step.
pub mod Prelude
pub mod Authority
pub mod ExportLog
pub mod Deadline
pub mod Topology
pub mod Transitions
pub mod Float
pub mod Export
pub mod Tripwire
pub mod Control
pub mod Addon
pub mod Ownership
pub mod SolisFrames
pub mod SolisTransport
pub mod SupplyGuard
pub mod Hold
pub mod Clamp
pub mod Clock
pub mod Commands
pub mod AuthorityFiles
pub mod Solcast
pub mod NativeFallback
pub mod NativeSlots
pub mod NativeVerify
pub mod SocTrust
pub mod NativeWrite
