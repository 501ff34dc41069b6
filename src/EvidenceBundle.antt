-- ===== src/EvidenceBundle.antt =====
-- tooling/evidence_bundle.py: the bundle of all evidence, and its validation.
pub mod Claims
use gui_shell_public.Prelude.{
  String, ◌<>◌, Bool, true, false, not, ◌==◌, ℕ, suc, List, [], ◌∷◌, ◌++◌, map, if◌then◌else◌,
}
use gui_shell_public.Prelude.Int.{pos, int_text}
use gui_shell_public.Outcome.{Result, ok, err, attribute_error, ◌>>=◌}
use gui_shell_public.Value.{
  Value, bool, num, str, arr, obj, Items, nil, cons, Fields, end, dict, list, has, get, get_or,
  index, truthy, is_true, is_false,
}
use gui_shell_public.AuditChain.{unless}
use gui_shell_public.Schema.Validation.{iterate}
use gui_shell_public.WindowsEvidence.{EvidenceResult, is_text}

-- What the bundle is made of: the results of `validate_windows_release_evidence()` and the reports of
-- `build_release_runtime_assertions()`, `run_release_smokes()`, `build_shell_snapshot()` and
-- `setup_doctor_report()`.
pub record Reports : Type 0 where
  pub windows_evidence : List EvidenceResult
  pub assertions : Fields
  pub smoke : Fields
  pub snapshot : Fields
  pub doctor : Fields

-- result.__dict__
unfoldable pub result_fields : EvidenceResult → Value
result_fields r = obj (
    dict (
      ("name", str r.name)
      ∷ ("status", str r.status)
      ∷ ("classification", str r.classification)
      ∷ ("blocks_release", str r.blocks_release)
      ∷ ("reason", str r.reason)
      ∷ ("required_action", str r.required_action)
      ∷ []))

unfoldable pub blocker_fields : EvidenceResult → Fields
blocker_fields r = dict (
    ("name", str r.name)
    ∷ ("status", str r.status)
    ∷ ("classification", str r.classification)
    ∷ ("blocks_release", bool (r.blocks_release == "yes"))
    ∷ ("reason", str r.reason)
    ∷ ("required_action", str r.required_action)
    ∷ [])

unfoldable pub bundle_blockers : List EvidenceResult → List Fields
bundle_blockers [] = []
bundle_blockers (r ∷ results) =
    let rest = bundle_blockers results in
    if r.classification == "release_blocker" then blocker_fields r ∷ rest else rest

-- The bundle, of the reports and three of their fields.
unfoldable pub bundle_of : Reports → Value → Value → Value → Fields
bundle_of R assertions_ok grants silent = dict (
    ("bundle_version", num (pos 1))
    ∷ ("product", str "GUI-Shell")
    ∷ ("release_ready", bool false)
    ∷ (
      "release_ready_reason",
      str
          "完成製品releaseの前にWindows installed-path evidenceとaudit anchorの外部tamper-evidence proofが必要である。",
    )
    ∷ ("classification", str "development_evidence")
    ∷ ("windows_release_evidence", list (map result_fields R.windows_evidence))
    ∷ ("release_runtime_assertions", obj R.assertions)
    ∷ ("release_smoke", obj R.smoke)
    ∷ ("setup_doctor", obj R.doctor)
    ∷ ("shell_snapshot", obj R.snapshot)
    ∷ ("blockers", list (map obj (bundle_blockers R.windows_evidence)))
    ∷ (
      "authority_boundary",
      obj (
          dict (
            ("flutter_owns_authority", bool false)
            ∷ ("flutter_authority_surface_broker_mediated", assertions_ok)
            ∷ ("flutter_spawns_python_for_authority", bool false)
            ∷ ("flutter_rust_ffi_authority_bridge", bool false)
            ∷ ("installer_grants_authority", grants)
            ∷ ("installer_silently_approves_permissions", silent)
            ∷ ("shell_core_authority_required", bool true)
            ∷ [])),
    )
    ∷ [])

unfoldable pub build_evidence_bundle : Reports → Result Fields
build_evidence_bundle R = do
  assertions_ok ← index R.assertions "ok"
  grants ← index R.doctor "installer_grants_authority"
  silent ← index R.doctor "installer_silently_approves_permissions"
  ok (bundle_of R assertions_ok grants silent)

-- bundle.get(name, {}).get(key): a value that is no dict has no `get`
unfoldable pub part : Fields → String → String → Result Value
part bundle name key = elim (get_or bundle name (obj end)) [
  | obj d ↦ ok (get d key)
  | _ ↦ err (attribute_error "get")
]

missing_keys : ℕ → Fields → List String → List String
missing_keys i blocker [] = []
missing_keys i blocker (key ∷ keys) =
    unless (has blocker key)
      ("evidence bundle blocker " <> (int_text (pos i) <> ("に" <> (key <> "がない"))))
    ++ missing_keys i blocker keys

unfoldable pub bundle_blocker_errors : ℕ → Items → List String
unfolding missing_keys
bundle_blocker_errors i nil = []
bundle_blocker_errors i (cons (obj blocker) items) =
    missing_keys i blocker
      ("name" ∷ "status" ∷ "classification" ∷ "blocks_release" ∷ "reason" ∷ "required_action" ∷ [])
    ++ (unless (is_text (get blocker "classification") "release_blocker")
          ("evidence bundle blocker " <> (int_text (pos i) <> "がrelease_blockerではない"))
        ++ (unless (is_true (get blocker "blocks_release"))
              ("evidence bundle blocker " <> (int_text (pos i) <> "はreleaseを阻止しなければならない"))
            ++ bundle_blocker_errors (suc i) items))
bundle_blocker_errors i (cons v items) =
    ("evidence bundle blocker " <> (int_text (pos i) <> "がobjectではない"))
    ∷ bundle_blocker_errors (suc i) items

unfoldable pub validate_evidence_bundle : Fields → Result (List String)
validate_evidence_bundle bundle = do
  owns ← part bundle "authority_boundary" "flutter_owns_authority"
  mediated ← part bundle "authority_boundary" "flutter_authority_surface_broker_mediated"
  spawns ← part bundle "authority_boundary" "flutter_spawns_python_for_authority"
  bridge ← part bundle "authority_boundary" "flutter_rust_ffi_authority_bridge"
  grants ← part bundle "authority_boundary" "installer_grants_authority"
  trust ← part bundle "shell_snapshot" "trust_records"
  authority ← part bundle "shell_snapshot" "authority_map"
  checks ← part bundle "setup_doctor" "checks"
  smoke ← part bundle "release_smoke" "ok"
  assertions ← part bundle "release_runtime_assertions" "ok"
  blockers ← iterate (get_or bundle "blockers" (arr nil))
  ok (
      unless (is_false (get bundle "release_ready"))
        "development evidence bundleはrelease_readyを主張してはならない"
      ++ (unless (is_false owns) "evidence bundleがFlutterによるauthority所有を示している"
          ++ (unless (is_true mediated)
                "evidence bundleにFlutter authority surfaceがbroker-mediatedであるというassertionがない"
              ++ (unless (is_false spawns) "evidence bundleがFlutterによるauthority用Python spawnを示している"
                  ++ (unless (is_false bridge)
                        "evidence bundleがFlutterによるFFI authority bridge使用を示している"
                      ++ (unless (is_false grants) "evidence bundleがinstallerによるauthority付与を示している"
                          ++ (unless (truthy trust) "evidence bundleにtrust recordがない"
                              ++ (unless (truthy authority) "evidence bundleにauthority mapがない"
                                  ++ (unless (truthy checks) "evidence bundleにSetup Doctor checkがない"
                                      ++ (unless (truthy smoke) "evidence bundle内のrelease smokeが失敗"
                                          ++ (unless (truthy assertions)
                                                "evidence bundle内のrelease runtime assertionが失敗"
                                              ++ bundle_blocker_errors 0 blockers)))))))))))
