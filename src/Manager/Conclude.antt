-- ===== src/Manager/Conclude.antt =====
-- The ends of `_async_run_update` and `_async_run_autoremove`, after the body with its record: the
-- cleanup observation and the publication
-- (custom_components/hubinet_ops/packages/manager.py).
use hubinet_ops_next.Prelude.{ℕ, Bool, true, false, ◌&&◌, none, some, List, codes, if◌then◌else◌}
use hubinet_ops_next.Dict.{Key, get}
use hubinet_ops_next.Models.{UpdateRecord, RemovablePackage, update_success}
use hubinet_ops_next.Manager.State.{Ref, Manager, Notice, notify, is_own}
use hubinet_ops_next.Manager.Scan.{publish_cleanup}
use hubinet_ops_next.Manager.Health.{Launch}
use hubinet_ops_next.Manager.Update.{finish_update, finish_cleanup}

-- How the cleanup plan that is asked for after a success is answered.
pub data Observation : Type 0 where
  seen : List RemovablePackage → Observation
  not_seen : Observation
  cut_off : Observation

-- A cancelled attempt publishes its record while it is its own; otherwise the operator is told.
unfoldable pub interrupt_update : Key → Ref UpdateRecord → UpdateRecord → Launch → Manager → Manager
interrupt_update k own outcome l m =
    if is_own (get k m.update_records) own
    then (finish_update k own outcome true l m).1
    else notify (Notice.update_completed k outcome) m

-- Whether the cleanup plan is asked for after an update.
unfoldable pub update_observes : Key → Ref UpdateRecord → UpdateRecord → Manager → Bool
update_observes k own outcome m =
    update_success outcome.status && is_own (get k m.update_records) own

-- The end of an update whose cleanup plan was asked for; `shown` is whether the presentation of
-- the observation returns.
unfoldable pub conclude_update :
    Key → Ref UpdateRecord → UpdateRecord → Observation → ℕ → Bool → Launch → Manager → Manager
conclude_update k own outcome (seen ps) now shown l m =
    (finish_update k own outcome true l
      (publish_cleanup k (some ps) (codes "update") now shown m)).1
conclude_update k own outcome not_seen now shown l m =
    (finish_update k own outcome true l (publish_cleanup k none (codes "update") now shown m)).1
conclude_update k own outcome cut_off now shown l m =
    if is_own (get k m.update_records) own
    then (finish_update k own outcome false l
        (publish_cleanup k none (codes "update") now shown m)).1
    else notify (Notice.update_completed k outcome) m

-- The same of a run of Autoremove, which leaves its evidence unknown in every other end.
unfoldable pub interrupt_autoremove :
    Key → Ref UpdateRecord → UpdateRecord → ℕ → Bool → Launch → Manager → Manager
interrupt_autoremove k own outcome now shown l m =
    if is_own (get k m.cleanup_records) own
    then (finish_cleanup k own outcome true l
        (publish_cleanup k none (codes "autoremove") now shown m)).1
    else notify (Notice.cleanup_completed k outcome) m

unfoldable pub autoremove_observes : Key → Ref UpdateRecord → UpdateRecord → Manager → Bool
autoremove_observes k own outcome m =
    update_success outcome.status && is_own (get k m.cleanup_records) own

-- The end of a run that did not ask for a new cleanup plan.
unfoldable pub fail_autoremove :
    Key → Ref UpdateRecord → UpdateRecord → ℕ → Bool → Launch → Manager → Manager
fail_autoremove k own outcome now shown l m =
    (finish_cleanup k own outcome true l
      (publish_cleanup k none (codes "autoremove") now shown m)).1

unfoldable pub conclude_autoremove :
    Key → Ref UpdateRecord → UpdateRecord → Observation → ℕ → Bool → Launch → Manager → Manager
conclude_autoremove k own outcome (seen ps) now shown l m =
    (finish_cleanup k own outcome true l
      (publish_cleanup k (some ps) (codes "autoremove") now shown m)).1
conclude_autoremove k own outcome not_seen now shown l m =
    (finish_cleanup k own outcome true l
      (publish_cleanup k none (codes "autoremove") now shown m)).1
conclude_autoremove k own outcome cut_off now shown l m =
    if is_own (get k m.cleanup_records) own
    then (finish_cleanup k own outcome false l
        (publish_cleanup k none (codes "autoremove") now shown m)).1
    else notify (Notice.cleanup_completed k outcome) m
