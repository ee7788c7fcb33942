-- ===== src/Transport/Update.antt =====
-- The plan and mutation requests of an update and a cleanup, and Ping
-- (custom_components/hubinet_ops/packages/transport.py).
use hubinet_ops_next.Prelude.{Bool, true, false, not, ◌||◌, Text, codes, text_eq, String, is_empty}
use hubinet_ops_next.Prelude.Results.{Result, ok, err, Answer, returned, raised, unexpected}
use hubinet_ops_next.Models.{UpdateOutcome, UpdateError}
use hubinet_ops_next.Process.{Mutation}
use hubinet_ops_next.Parser.Lines.{Tables}
use hubinet_ops_next.Parser.Fault.{parse_error, scan_error, Parsed}
use hubinet_ops_next.Parser.Evidence.{Inventory, parse_installed_inventory}
use hubinet_ops_next.Parser.Apt.{AptSimulation, parse_apt_simulation}
use hubinet_ops_next.Parser.Autoremove.{AutoremoveSimulation, parse_autoremove_simulation}
use hubinet_ops_next.Transport.{
  Value, bool, Fields, field, empty, get, Target, Failure, text_of, ◌>>=◌, ◌>>◌, refuse_if, present,
}
use hubinet_ops_next.Transport.Reply.{
  update_fault, replied, Operation, plan_packages, update_packages, plan_autoremove,
  autoremove_packages, ping,
}

-- `evidence[key]`, and the test that it is a text.
abbrev pub key_of : UpdateOutcome → String → String → Fields → Answer UpdateError Value
key_of o message key e = present (update_fault o message) (get key e)

abbrev pub as_text : UpdateOutcome → String → Value → Answer UpdateError Text
as_text o message v = present (update_fault o message) (text_of v)

-- A parsed plan; the handler names the parse errors only.
abbrev pub plan_parsed : {A : Type 0} → Parsed A → Answer UpdateError A
plan_parsed (ok a) = returned a
plan_parsed (err (parse_error f s)) =
    raised (record { outcome = UpdateOutcome.plan_failed; message = s })
plan_parsed (err (scan_error f s)) = unexpected

abbrev pub inventory_parsed : String → Parsed Inventory → Answer UpdateError Inventory
inventory_parsed message (ok inv) = returned inv
inventory_parsed message (err (parse_error f s)) =
    raised (update_fault UpdateOutcome.mutation_failed message)
inventory_parsed message (err (scan_error f s)) = unexpected

module _ (tables : Tables) (t : Target) (r : Result Failure Value) where
  -- The evidence of a plan, and what reads it.
  abbrev planned :
      {A : Type 0}
      → Operation
      → String
      → String
      → String
      → (Text → Text → Text → Parsed A)
      → Answer UpdateError A
  planned op key incomplete malformed parse = do
    e ← replied t op UpdateOutcome.plan_failed UpdateOutcome.plan_failed r
    native_value ← key_of UpdateOutcome.plan_failed incomplete "native_architecture" e
    inventory_value ← key_of UpdateOutcome.plan_failed incomplete "installed_inventory" e
    simulation_value ← key_of UpdateOutcome.plan_failed incomplete key e
    native ← as_text UpdateOutcome.plan_failed malformed native_value
    inventory ← as_text UpdateOutcome.plan_failed malformed inventory_value
    simulation ← as_text UpdateOutcome.plan_failed malformed simulation_value
    plan_parsed (parse simulation native inventory)

  -- `async_plan`
  unfoldable pub async_plan : Answer UpdateError AptSimulation
  unfolding replied parse_apt_simulation
  async_plan =
      planned plan_packages "simulation" "package plan helper returned incomplete evidence"
        "package plan helper returned malformed evidence" (parse_apt_simulation tables)

  -- `async_plan_autoremove`
  unfoldable pub async_plan_autoremove : Answer UpdateError AutoremoveSimulation
  unfolding replied parse_autoremove_simulation
  async_plan_autoremove =
      planned plan_autoremove "autoremove_simulation"
        "cleanup plan helper returned incomplete evidence"
        "cleanup plan helper returned malformed evidence" (parse_autoremove_simulation tables)

  -- The inventories before and after a mutation.
  abbrev pub mutated : Operation → String → String → String → String → Answer UpdateError Mutation
  mutated op incomplete malformed unparsed unfinished = do
    e ← replied t op UpdateOutcome.mutation_timed_out UpdateOutcome.mutation_uncertain r
    before_value ← key_of UpdateOutcome.mutation_uncertain incomplete "before_inventory" e
    after_value ← key_of UpdateOutcome.mutation_uncertain incomplete "after_inventory" e
    before_text ← as_text UpdateOutcome.mutation_uncertain malformed before_value
    after_text ← as_text UpdateOutcome.mutation_uncertain malformed after_value
    before ← inventory_parsed unparsed (parse_installed_inventory before_text)
    after ← inventory_parsed unparsed (parse_installed_inventory after_text)
    refuse_if (not (is_empty before.unfinished) || not (is_empty after.unfinished))
        (update_fault UpdateOutcome.mutation_failed unfinished)
    returned (record { before = before.versions; after = after.versions })

  -- `async_update`
  unfoldable pub async_update : Answer UpdateError Mutation
  unfolding replied parse_installed_inventory
  async_update =
      mutated update_packages "package update helper returned incomplete inventory evidence"
        "package update helper returned malformed inventory evidence"
        "post-update package inventory could not be parsed"
        "dpkg reports unfinished package state after update"

  -- `async_autoremove`
  unfoldable pub async_autoremove : Answer UpdateError Mutation
  unfolding replied parse_installed_inventory
  async_autoremove =
      mutated autoremove_packages "autoremove helper returned incomplete inventory evidence"
        "autoremove helper returned malformed inventory evidence"
        "post-autoremove package inventory could not be parsed"
        "dpkg reports unfinished package state after autoremove"

  -- `set(evidence) == {"pong"}`, and the value is true
  is_pong : Fields → Bool
  is_pong (field k (bool true) empty) = text_eq k (codes "pong")
  is_pong _ = false

  -- `async_ping`
  unfoldable pub async_ping : Answer UpdateError Bool
  unfolding replied is_pong
  async_ping = do
    e ← replied t ping UpdateOutcome.liveness_failed UpdateOutcome.liveness_failed r
    refuse_if (not (is_pong e)) (
        update_fault UpdateOutcome.liveness_failed
          "package helper returned malformed liveness evidence")
    returned true
