-- ===== src/PolicyEvaluator/Checks/Meets.antt =====
-- packages/shell_core/policy_evaluator.py: the checks of the evaluator against the parts of the
-- specification.
use gui_shell_public.Prelude.{
  String, ◌<>◌, ◌≡◌, refl, ap, ◌≢◌, ◌↔◌, Bool, true, false, List, [], ◌∷◌, Option, none, some,
  arith, All, ◌∙◌, Bool-cases, inl, inr,
}
use gui_shell_public.Outcome.{Result, ok, err, ◌>>=◌, >>=-eq-ok}
use gui_shell_public.Platform.{Platform}
use gui_shell_public.Value.{
  Value, null, str, obj, Fields, end, get, get_or, truthy, is_null, is_true,
}
use gui_shell_public.Value.Equal.{py_eq, py_eq-str}
use gui_shell_public.Hash.{canonical_hash}
use gui_shell_public.ErrorTaxonomy.{ShellCoreError}
use gui_shell_public.RuntimeState.{RuntimeState}
use gui_shell_public.PolicyEvaluator.Checks.{
  Errors, when, operation_of, has_payload, mismatches, excludes, is_allowing, names_operation,
  runtime_errors, check_runtime, capability_errors, check_capability, permission_errors,
  check_permission, approval_errors, check_approval, expected_audit_hash, stored_audit_errors,
  event_errors, audit_errors, check_audit, stored_recovery_errors, recovery_errors, check_recovery,
  check_metadata, sources_errors, check_sources, claims_source,
}
use gui_shell_public.Normalization.Search.{attempts_authority_decides}
use gui_shell_public.PermissionLedger.{non_authority_sources}
use gui_shell_public.PolicyEvaluator.Spec.{
  Names, relation_fields, HasCleanMetadata, HasNoForeignSource, Agree, HasRuntime, HasCapability,
  HasPermission, HasApproval, HasAudit, HasRecovery,
}

when-eq-nil : (b : Bool) (e : ShellCoreError) → (when b e ≡ []) ↔ (b ≡ false)
unfolding when
when-eq-nil b e = ground arith

mismatches-eq-nil :
    (operation : Value) (left right : Fields) (names : List String) (label : String)
    → (mismatches operation left right names label ≡ []) ↔ Agree left right names
unfolding mismatches when
mismatches-eq-nil operation left right [] label = (λ h. tt, λ h. refl)
mismatches-eq-nil operation left right (name ∷ names) label =
    let ih = mismatches-eq-nil operation left right names label in
    elim (Bool-cases (py_eq (get left name) (get right name))) [
      | inl same ↦ rw same (λ h. (refl, ih.0 h), λ h. ih.1 h.1)
      | inr differ ↦ rw differ (λ h. cc, λ h. cc (h.0))
    ]

-- A check that finds nothing has found its record, where a missing record is an error.
found_record :
    (r : Result (Option Fields)) (f : Option Fields → Result Errors)
    → f none ≢ ok []
    → (r >>= f) ≡ ok []
    → (x : Fields) × (r ≡ ok (some x)) × (f (some x) ≡ ok [])
found_record (ok (some x)) f h e = (x, refl, e)
found_record (ok none) f h e = absurd (h e)
found_record (err c) f h e = cc

module _ (P : Platform) (s : RuntimeState) (action : Fields) where
  pub runtime-meets : (check_runtime P s action ≡ ok []) ↔ HasRuntime P s action
  unfolding check_runtime
  runtime-meets = elim (Bool-cases (truthy (get action "runtime_id"))) [
    | inl named ↦ rw named (
      λ h.
          let (x, e, _) = found_record _ (λ f. ok (runtime_errors P s action f)) (cc) h in
          (x, refl, e),
      λ (x, _, e). rw e,
    )
    | inr nameless ↦ rw nameless (λ h. cc, λ (x, e, _). cc)
  ]

  capability-meets_some :
      (c : Fields)
      → (capability_errors P s action (some c) ≡ []) ↔ (
          (truthy (get action "runtime_id") ≡ true
            → py_eq (get c "runtime_id") (get action "runtime_id") ≡ true)
          × (excludes (get c "operations") (operation_of action) ≡ false))
  unfolding check_capability
  capability-meets_some c = ground arith

  pub capability-meets : (check_capability P s action ≡ ok []) ↔ HasCapability P s action
  unfolding check_capability
  capability-meets = (
    λ h.
        let (x, e, found) = found_record _ (λ f. ok (capability_errors P s action f)) (cc) h in
        let (a, b) = (capability-meets_some x).0 (cc) in (x, e, a, b),
    λ (x, e, a, b). rw (e, (capability-meets_some x).1 (a, b)),
  )

  permission-meets_some :
      (p : Fields)
      → (permission_errors P s action (some p) ≡ ok []) ↔ (
          (is_allowing (get p "decision") ≡ ok true)
          × (is_null (get action "capability_id") ≡ false
              → py_eq (get p "capability_id") (get action "capability_id") ≡ true)
          × Agree action p relation_fields)
  unfolding check_permission
  permission-meets_some p =
      let agree = mismatches-eq-nil (operation_of action) action p relation_fields "permission" in
      ground arith

  pub permission-meets : (check_permission P s action ≡ ok []) ↔ HasPermission P s action
  unfolding check_permission
  permission-meets = (
    λ h.
        let (x, e, found) = found_record _ (λ f. permission_errors P s action f) (cc) h in
        let (a, b, c) = (permission-meets_some x).0 found in (x, e, a, b, c),
    λ (x, e, a, b, c). rw e ((permission-meets_some x).1 (a, b, c)),
  )

  approval-meets_some :
      (a : Fields)
      → (approval_errors P s action (some a) ≡ []) ↔ (
          (get a "status" ≡ str "approved")
          × Agree action a relation_fields
          × (has_payload action ≡ true
              → get a "payload_hash" ≡ str (canonical_hash P (get action "payload"))))
  unfolding check_approval
  approval-meets_some a =
      let agree = mismatches-eq-nil (operation_of action) action a relation_fields "approval" in
      let status = py_eq-str (get a "status") "approved" in
      let hash = py_eq-str (get a "payload_hash") (canonical_hash P (get action "payload")) in
      ground arith

  pub approval-meets : (check_approval P s action ≡ ok []) ↔ HasApproval P s action
  unfolding check_approval
  approval-meets = elim (Bool-cases (is_null (get action "approval_id"))) [
    | inl absent ↦ rw absent (λ h. cc, λ (x, e, _, _, _, _). cc)
    | inr given ↦ rw given (
      λ h.
          let (x, e, found) = found_record _ (λ f. ok (approval_errors P s action f)) (cc) h in
          let (a, b, c) = (approval-meets_some x).0 (cc) in (x, refl, e, a, b, c),
      λ (x, _, e, a, b, c). rw (e, (approval-meets_some x).1 (a, b, c)),
    )
  ]

  stored_audit-meets :
      (event stored : Fields)
      → (stored_audit_errors P s action event (some stored) ≡ ok []) ↔ (
          (py_eq (get event "payload_hash") (expected_audit_hash P s action event) ≡ true)
          × (py_eq (get stored "payload_hash") (expected_audit_hash P s action event) ≡ true)
          × (names_operation (get stored "action") (operation_of action) ≡ ok true))
  unfolding check_audit
  stored_audit-meets event stored = ground arith

  recovery-meets_obj :
      (recovery : Fields)
      → (recovery_errors P s action (obj recovery) ≡ ok []) ↔ (
          (stored : Fields) × (truthy (get recovery "recovery_id") ≡ true)
          × Names s.recovery_actions recovery "recovery_id" stored
          × Agree stored action ("runtime_id" ∷ "operation" ∷ []))
  unfolding check_recovery
  recovery-meets_obj recovery = elim (Bool-cases (truthy (get recovery "recovery_id"))) [
    | inl named ↦ rw named (
      λ h.
          let (x, e, found) =
            found_record _
              (λ f. ok (stored_recovery_errors P s action (get recovery "recovery_id") f)) (cc) h in
          (
            x,
            refl,
            e,
            (mismatches-eq-nil (operation_of action) x action ("runtime_id" ∷ "operation" ∷ [])
                  "recovery").0
                (cc),
          ),
      λ (x, _, e, agree). rw (
        e,
        (mismatches-eq-nil (operation_of action) x action ("runtime_id" ∷ "operation" ∷ [])
              "recovery").1
            agree,
      ),
    )
    | inr nameless ↦ rw nameless (λ h. cc, λ (x, e, _, _). cc)
  ]

  recovery-meets_value :
      (v : Value)
      → (recovery_errors P s action v ≡ ok []) ↔ (
          (recovery : Fields) × (stored : Fields) × (v ≡ obj recovery)
          × (truthy (get recovery "recovery_id") ≡ true)
          × Names s.recovery_actions recovery "recovery_id" stored
          × Agree stored action ("runtime_id" ∷ "operation" ∷ []))
  unfolding check_recovery
  recovery-meets_value (obj d) = (
    λ h. let (x, a, b, c) = (recovery-meets_obj d).0 h in (d, x, refl, a, b, c),
    λ (r, x, e, a, b, c). let same : d ≡ r = cc in rw same ((recovery-meets_obj r).1 (x, a, b, c)),
  )
  recovery-meets_value null = (λ h. cc, λ (d, x, e, _, _, _). cc)
  recovery-meets_value _ = (λ h. cc, λ (d, x, e, _, _, _). cc)

  pub recovery-meets : (check_recovery P s action ≡ ok []) ↔ HasRecovery P s action
  unfolding check_recovery
  recovery-meets = recovery-meets_value (get action "recovery_action")

  event-meets :
      (event : Fields) (stored : Errors)
      → (event_errors P s action event stored ≡ []) ↔ (
          (truthy (get event "event_id") ≡ true)
          × (has_payload action ≡ true → truthy (get event "payload_hash") ≡ true)
          × (stored ≡ []))
  unfolding check_audit
  event-meets event stored = ground arith

  missing_audit :
      (event : Fields)
      → (stored_audit_errors P s action event none >>= λ st. ok (event_errors P s action event st))
        ≢ ok []
  unfolding check_audit
  missing_audit event = ground arith

  audit-meets_obj :
      (event : Fields)
      → (audit_errors P s action (obj event) ≡ ok []) ↔ (
          (stored : Fields) × (truthy (get event "event_id") ≡ true)
          × (has_payload action ≡ true → truthy (get event "payload_hash") ≡ true)
          × Names s.audit_events event "event_id" stored
          × (stored_audit_errors P s action event (some stored) ≡ ok []))
  unfolding audit_errors
  audit-meets_obj event = (
    λ h.
        let (x, e, found) =
          found_record _
            (λ f. stored_audit_errors P s action event f >>= λ st.
              ok (event_errors P s action event st))
            (missing_audit event) h in
        let (st, k, nothing) =
          >>=-eq-ok (stored_audit_errors P s action event (some x))
            (λ es. ok (event_errors P s action event es)) found in
        let (a, b, c) = (event-meets event st).0 (cc) in (x, a, b, e, k ∙ ap ok c),
    λ (x, a, b, e, k). rw (e, k, (event-meets event []).1 (a, b, refl)),
  )

  audit-meets_value :
      (v : Value)
      → (audit_errors P s action v ≡ ok []) ↔ (
          (event : Fields) × (stored : Fields) × (v ≡ obj event)
          × (truthy (get event "event_id") ≡ true)
          × (has_payload action ≡ true → truthy (get event "payload_hash") ≡ true)
          × Names s.audit_events event "event_id" stored
          × (py_eq (get event "payload_hash") (expected_audit_hash P s action event) ≡ true)
          × (py_eq (get stored "payload_hash") (expected_audit_hash P s action event) ≡ true)
          × (names_operation (get stored "action") (operation_of action) ≡ ok true))
  audit-meets_value (obj d) = (
    λ h.
        let (x, a, b, c, k) = (audit-meets_obj d).0 h in
        let (p, q, r) = (stored_audit-meets d x).0 k in (d, x, refl, a, b, c, p, q, r),
    λ (v, x, e, a, b, c, p, q, r).
        let same : d ≡ v = cc in
        rw same ((audit-meets_obj v).1 (x, a, b, c, (stored_audit-meets v x).1 (p, q, r))),
  )
  audit-meets_value null = (λ h. unfold audit_errors in cc, λ (d, x, e, _, _, _, _, _, _). cc)
  audit-meets_value _ = (λ h. unfold audit_errors in cc, λ (d, x, e, _, _, _, _, _, _). cc)

  pub audit-meets : (check_audit P s action ≡ ok []) ↔ HasAudit P s action
  unfolding check_audit
  audit-meets = audit-meets_value (get action "audit_event")

  pub metadata-meets : (check_metadata P s action ≡ []) ↔ HasCleanMetadata P s action
  unfolding check_metadata
  metadata-meets =
      rw (attempts_authority_decides P (get_or action "adapter_metadata" (obj end))) (ground arith)

  sources_errors-meets :
      (sources : List String)
      → (sources_errors P s action sources ≡ [])
        ↔ All
            (λ source.
              (py_eq (get action "authority_source") (str source) ≡ false)
              × (is_true (get action (source <> "_grants_authority")) ≡ false))
            sources
  unfolding check_sources claims_source
  sources_errors-meets [] = (λ h. tt, λ h. refl)
  sources_errors-meets (source ∷ sources) =
      let ih = sources_errors-meets sources in
      elim (Bool-cases (py_eq (get action "authority_source") (str source))) [
        | inl named ↦ rw named (λ h. cc, λ (a, _). cc)
        | inr other ↦ elim (Bool-cases (is_true (get action (source <> "_grants_authority")))) [
          | inl flagged ↦ rw (other, flagged) (λ h. cc, λ (a, _). cc)
          | inr plain ↦ rw (other, plain) (λ h. ((refl, refl), ih.0 h), λ (_, rest). ih.1 rest)
        ]
      ]

  pub sources-meets : (check_sources P s action ≡ []) ↔ HasNoForeignSource P s action
  unfolding check_sources
  sources-meets = sources_errors-meets non_authority_sources
