-- ===== src/Registry/Stores.antt =====
-- packages/shell_core/runtime_registry.py and recovery_catalog.py.
use gui_shell_public.Prelude.{String, List}
use gui_shell_public.Outcome.{Result}
use gui_shell_public.Value.{Fields}
use gui_shell_public.Store.{Table}
use gui_shell_public.Registry.Keyed.{register_under, get_from, sorted_records}

unfoldable pub register_runtime_record : Table → Fields → Result Table
register_runtime_record = register_under "runtime_id"

unfoldable pub get_runtime : Table → String → Result Fields
get_runtime = get_from "未登録の runtime です: "

unfoldable pub snapshot_runtimes : Table → Result (List Fields)
snapshot_runtimes = sorted_records

unfoldable pub register_recovery : Table → Fields → Result Table
register_recovery = register_under "recovery_id"

unfoldable pub get_recovery : Table → String → Result Fields
get_recovery = get_from "未登録の recovery action です: "
