-- ===== src/Lib.antt =====
-- Hubinet-Ops: the package subsystem of the Home Assistant integration for Proxmox VE.
--
-- The program scans LXC guests for package updates, lets an operator review the plan of a scan,
-- updates a guest behind a temporary snapshot, removes packages that are no longer needed, and
-- checks the health of a guest. `PackageManager` (custom_components/hubinet_ops/packages/
-- manager.py) owns all state. Its synchronous operations accept or refuse; its coroutines wait for
-- the transport (packages/transport.py) and for the Proxmox API (packages/snapshots.py), and then
-- publish. The coordinator, the entities, the services and the Restore of snapshots call it.
--
-- Models.antt has the records and enumerations of packages/models.py with the source's fields,
-- Models/Health.antt `classify_health`. Snapshots.antt has the pure part of packages/snapshots.py:
-- the names (`valid_name` is `validate_snapshot_name`), `is_complete`, `is_absent`,
-- `retained_summary`, `parse_task_status` and `require_upid`. Dict.antt has Python's dictionaries
-- and sets as lists, in insertion order.
--
-- Manager/State.antt has the state of `PackageManager` with every field that `__init__` makes but
-- the semaphores and the callbacks, the private methods that write it, and the tests of the
-- guards. Scan, Health, Update, Conclude, Restore and Prune under Manager/ have the operations:
-- `start_scan` is `async_start_scan`, `complete_scan` the end of `_async_run_scan`, `confirm_review`
-- and `mark_viewed` have the source's names, `start_update` and `start_autoremove` are
-- `async_start_update` and `async_start_autoremove`, `finish_update` and `finish_cleanup` are
-- `_finish_update` and `_finish_cleanup`, `conclude_update` and `conclude_autoremove` the ends of
-- `_async_run_update` and `_async_run_autoremove`, `prune` is `async_prune`, `invalidate_non_running`
-- is `async_invalidate_non_running`. An operation is a function on the state; one that raises
-- returns the error beside the state. Manager/Lifecycle.antt has the steps of the manager, with the
-- attempts that are under way, and the states that are reachable by any sequence of them: since the
-- event loop runs one synchronous stretch at a time, a coroutine that waits is a later step.
-- An operation is one step: a listener of `on_state_change` that starts another operation in the middle
-- of one is not among the steps. Manager/Heard.antt has the acceptance of an Update and its publication with
-- such a listener at each notification, and Manager/Reentry.antt what it can do there.
-- Accept, Stored, Publish, Evidence, Fence, Exclusion, Ownership and Removed under Manager/ have the
-- lemmas on the operations, Manager/Cases.antt the guest of the examples.
--
-- Process.antt has the coroutines as functions on their local variables and the events so far, over
-- a world that answers each call by any function of these events: with a value, an exception or a
-- cancellation. Process/Snapshot.antt has `_async_wait_for_task`, `async_create_snapshot` and
-- `async_delete_snapshot`, Process/Run.antt the bodies of `_async_run_update` and
-- `_async_run_autoremove`, Process/Plan.antt the comparison of plans, Process/Outcome.antt their
-- handlers and records. Process/History.antt says what the events of a run show, in their order, and
-- Process/Hoare.antt has the rules by which Stage, Waits, Safety, Stages, Creation, Runs, Ended and Attempt
-- follow a run; Polls
-- counts the polls, and Snapshots/Laws.antt has the laws of listings. The loop of
-- `_async_wait_for_task` is recursion on the polls that are left, 120 in a run, as the source has
-- it (`_TASK_MAX_POLLS`), so no other fuel is needed. The modules named Examples hold concrete runs.
--
-- Python compares records by identity; a stored record carries the number of its object, and each
-- write takes a new number. Times are numbers. The calls out of the manager are a log; whether the
-- presentation of the cleanup plan raises, and whether a background task can be made, are arguments,
-- since the source goes on differently. Home Assistant may run a background task up to its first
-- wait at once: this is modelled for a Health check, and taken not to end a Scan, an Update or an
-- Autoremove before the wait for the transport. The Unicode tables behind a regular expression's
-- digits and spaces, the name that `generate_snapshot_name` makes from the clock and a random suffix,
-- and every reply of Proxmox are parameters. The getter of the Proxmox client is taken not to raise.
-- The version of the host helper, which the source copies after each call of the transport, is a
-- step of its own. The semaphores that bound the calls under way are not modelled: they only delay.
--
-- Parser/Lines.antt and Parser/Match.antt have what packages/parser.py takes from Python: the lines
-- of a text, `strip`, and its regular expressions as functions that read a text from its start.
-- Parser/Evidence.antt has `parse_native_architecture`, `parse_installed_inventory`
-- and the resolution of an architecture, Parser/System.antt `parse_os_release`, Parser/Candidate.antt the
-- description of a candidate, Parser/Apt.antt `parse_apt_simulation`,
-- Parser/Autoremove.antt `parse_autoremove_simulation`; Parser/Fault.antt what they raise, as a result,
-- and Parser/Order.antt their sort. The parsers take texts, so the refusal of a value that is no string
-- is not there. The tables of Unicode, `str.lower` and `shlex.split` are parameters. Sound, Safe,
-- Forbidden, Inventory, Trips and Counts under Parser/ have the lemmas.
--
-- EasyUpdate/Resolve.antt has `async_resolve_target` of easy_update.py over the device and the entries that
-- the registries of Home Assistant answer with (`str` of a number is a parameter), EasyUpdate.antt has
-- `async_start_easy_update` over the operations of the package manager, and EasyUpdate/Follow.antt
-- `decide` and `follow` of the Autoremove that may come after it, over the states that the task sees
-- when it wakes before its observation time ends. Accept and Run have the lemmas.
--
-- Memory.antt has the host and the guest memory of a virtual machine of vm_memory.py, over numbers
-- that are integers or not finite; the shares in percent are not modelled.
--
-- Native.antt has the names and the listings of snapshots.py, Native/Task.antt the observation of a
-- task (the three attempts of the source, each with any clock and any status), Native/Submit.antt
-- Rollback and Delete; Native/Restore.antt and Native/Delete.antt the presses of the two buttons of
-- snapshot_restore.py and the runs that they launch, whose calls may come to any answer, exception or
-- cancellation, and during which anything may happen to the manager. A translated reason stands as its
-- key. Names, Listing, Reserve, Sequence, Honest and Proven have the lemmas.
--
-- Transport.antt has the values of JSON, the target and the envelope of a reply of packages/
-- transport.py; Transport/Request.antt `_async_request` from what the SSH session comes to, Transport/
-- Reply.antt the validation of the replies to an update or a cleanup, Transport/Update.antt these
-- requests and Ping, Transport/Scan.antt and Transport/Health.antt
-- those two requests with the validation of their replies, over the parsers and `classify_health`. A
-- request is taken to be within its bound. Identity, Evidence, Verdict and Scanned have the lemmas.
--
-- Not modelled: the SSH session, the probe and the host helper (deploy), the presentation
-- (packages/presentation.py), the observation of Create and the notifications of
-- snapshot_restore.py, the enrollment, the coordinator, and the entities, services and cards, which
-- are calls of Home Assistant.
pub mod Prelude
pub mod Dict
pub mod Memory
pub mod Models
pub mod Snapshots
pub mod Process
pub mod Parser
pub mod Manager
pub mod EasyUpdate
pub mod Native
pub mod Transport
