-- ===== src/WindowsEvidence/Shown.antt =====
-- tooling/windows_release_evidence.py: what the evidence of the setup doctor, the broker, the audit anchor
-- and the installer shows when it has no errors.
use gui_shell_public.Prelude.{
  String, ◌≡◌, refl, sym, ap, ◌∙◌, ◌≢◌, Bool, true, false, not, ◌==◌, List, [], ◌∷◌, is_empty_iff,
  Bool-cases, inl, inr, append-eq-nil, member-sort_texts, eq_iff, ◌⊎◌, or-eq-false, not-eq-true,
  arith, member, sort_texts, member_of_difference-nil,
}
use gui_shell_public.Outcome.{ok, >>=-eq-ok, ok-injective}
use gui_shell_public.Platform.{Platform}
use gui_shell_public.Value.{Value, bool, str, arr, obj, Items, nil, cons, Fields, get, is_false}
use gui_shell_public.Value.Laws.{is_true_iff, is_false_iff}
use gui_shell_public.Value.Equal.{py_eq-str}
use gui_shell_public.Manifest.Entries.{unless-eq-nil, unless-append-nil}
use gui_shell_public.WindowsEvidence.{
  SearchLib, get_dotted, dotted_is_false, any_record, texts_under, is_text,
}
use gui_shell_public.ReleaseGate.Resolved.{true_and_false}
use gui_shell_public.WindowsEvidence.FirstRun.{boundary_errors, probe_errors}
use gui_shell_public.WindowsEvidence.SetupDoctor.{
  required_setup_checks, setup_check_errors, setup_source_errors, setup_errors,
}
use gui_shell_public.WindowsEvidence.Broker.{
  required_broker_true_fields, broker_field_errors, broker_source_errors, measured_by,
  broker_errors,
}
use gui_shell_public.WindowsEvidence.Anchor.{claim_is_backed, tamper_errors, anchor_source_errors}

-- The predicate holds of every dict in the list.
abbrev pub EveryRecord : (Fields → Type 0) → Items → Type 0
EveryRecord Q nil = Unit
EveryRecord Q (cons (obj d) items) = Q d × EveryRecord Q items
EveryRecord Q (cons v items) = EveryRecord Q items

-- The setup doctor ran in the product, grants no authority, approves nothing silently, and has all
-- required checks, of which none failed or grants authority.
abbrev pub ShowsSetup : Fields → Type 0
ShowsSetup setup =
    (items : Items) × (get setup "checks" ≡ arr items)
    × (get setup "installer_grants_authority" ≡ bool false)
    × (get setup "installer_silently_approves_permissions" ≡ bool false)
    × EveryRecord (λ c. (get c "status" ≢ str "fail") × (get c "grants_authority" ≡ bool false))
        items
    × ((check : String)
        → member check required_setup_checks ≡ true
        → member check (texts_under "check_id" items) ≡ true)

no_record :
    (test : Fields → Bool) (items : Items)
    → any_record test items ≡ false
    → EveryRecord (λ d. test d ≡ false) items
unfolding any_record
no_record test nil h = tt
no_record test (cons (obj d) items) h =
    let (here, rest) = or-eq-false (test d) _ h in (here, no_record test items rest)
no_record test (cons _ items) h = no_record test items h

every_both :
    {Q R S : Fields → Type 0} (items : Items)
    → ((d : Fields) → Q d → R d → S d)
    → EveryRecord Q items
    → EveryRecord R items
    → EveryRecord S items
every_both nil f h k = tt
every_both (cons (obj d) items) f h k = (f d h.0 k.0, every_both items f h.1 k.1)
every_both (cons _ items) f h k = every_both items f h k

check_shown :
    (d : Fields)
    → is_text (get d "status") "fail" ≡ false
    → not (is_false (get d "grants_authority")) ≡ false
    → (get d "status" ≢ str "fail") × (get d "grants_authority" ≡ bool false)
unfolding is_text
check_shown d h k = (
  λ fails. true_and_false ((py_eq-str (get d "status") "fail").1 fails) h,
  (is_false_iff (get d "grants_authority")).0 (ground (arith, k)),
)

checks_shown :
    (v : Value)
    → setup_check_errors v ≡ []
    → (items : Items) × (v ≡ arr items)
      × EveryRecord
          (λ c. (get c "status" ≢ str "fail") × (get c "grants_authority" ≡ bool false))
          items
      × ((check : String)
          → member check required_setup_checks ≡ true
          → member check (texts_under "check_id" items) ≡ true)
unfolding setup_check_errors
checks_shown (arr (cons check checks)) h =
    let items = cons check checks in
    let (failing, r1) = append-eq-nil _ _ h in
    let (granting, r2) = append-eq-nil _ _ r1 in
    let (missing, instructions) = append-eq-nil _ _ r2 in
    (
      items,
      refl,
      every_both items check_shown
          (no_record _ items (not-eq-true _ ((unless-eq-nil _ _).0 failing)))
          (no_record _ items (not-eq-true _ ((unless-eq-nil _ _).0 granting))),
      member_of_difference-nil required_setup_checks (texts_under "check_id" items)
          ((is_empty_iff _).0 ((unless-eq-nil _ _).0 missing)),
    )
checks_shown (arr nil) h = cc
checks_shown _ h = cc

pub setup_shown :
    (v : Value) → setup_errors v ≡ [] → (setup : Fields) × (v ≡ obj setup) × ShowsSetup setup
unfolding setup_errors
setup_shown (obj setup) h =
    let (formal, r1) = unless-append-nil _ _ _ h in
    let (status, r2) = unless-append-nil _ _ _ r1 in
    let (source, r3) = append-eq-nil (setup_source_errors (get setup "evidence_source")) _ r2 in
    let (ran, r4) = unless-append-nil _ _ _ r3 in
    let (readable, r5) = unless-append-nil _ _ _ r4 in
    let (grants, r6) = unless-append-nil _ _ _ r5 in
    let (silent, r7) = unless-append-nil _ _ _ r6 in
    let (items, is_list, every, complete) = checks_shown (get setup "checks") r7 in
    (
      setup,
      refl,
      (items, is_list, (is_false_iff _).0 grants, (is_false_iff _).0 silent, every, complete),
    )
setup_shown _ h = cc

-- Every measured field of the broker is True.
abbrev pub ShowsBroker : Fields → Type 0
ShowsBroker broker =
    (name : String) → member name required_broker_true_fields ≡ true → get broker name ≡ bool true

fields_true :
    (broker : Fields) (names : List String)
    → broker_field_errors broker names ≡ []
    → (name : String) → member name names ≡ true
    → get broker name ≡ bool true
unfolding broker_field_errors member
fields_true broker [] h name there = cc
fields_true broker (n ∷ names) h name there =
    let (here, r) = unless-append-nil _ _ _ h in
    let (measured, rest) = append-eq-nil (measured_by n (get broker "field_provenance")) _ r in
    let found = (is_true_iff (get broker n)).0 here in
    elim (Bool-cases (n == name)) [
      | inl same ↦ ap (get broker) (sym ((eq_iff n name).0 same)) ∙ found
      | inr other ↦ fields_true broker names rest name (rw other at there)
    ]

pub broker_shown :
    (v : Value) → broker_errors v ≡ [] → (broker : Fields) × (v ≡ obj broker) × ShowsBroker broker
unfolding broker_errors
broker_shown (obj broker) h =
    let (status, r1) = unless-append-nil _ _ _ h in
    let (source, r2) = append-eq-nil (broker_source_errors (get broker "evidence_source")) _ r1 in
    let (provenance, r3) = unless-append-nil _ _ _ r2 in
    let names = sort_texts required_broker_true_fields in
    let (fields, r4) = append-eq-nil (broker_field_errors broker names) _ r3 in
    (
      broker,
      refl,
      λ name there.
          fields_true broker names fields name
            (member-sort_texts name required_broker_true_fields ∙ there),
    )
broker_shown _ h = cc

-- A user who rewrites the key, the anchor and the log together is kept out, and a claim to resist an
-- administrator has an external anchor or signed evidence behind it.
abbrev pub ShowsAnchor : Fields → Type 0
ShowsAnchor evidence =
    (get evidence "key_anchor_log_same_user_rewrite_mitigated" ≡ bool true)
    × (get evidence "administrator_root_resistance_claimed" ≡ bool true
        → (get evidence "external_anchor_verified" ≡ bool true)
          ⊎ (get evidence "signed_evidence_verified" ≡ bool true))

pub anchor_shown :
    (P : Platform) (v : Value)
    → tamper_errors P v ≡ ok []
    → (evidence : Fields) × (v ≡ obj evidence) × ShowsAnchor evidence
unfolding tamper_errors claim_is_backed
anchor_shown P (obj evidence) h =
    let (source, known, all) =
      >>=-eq-ok (anchor_source_errors P (get evidence "evidence_source")) _ h in
    let (status, r1) = unless-append-nil _ _ _ (ok-injective all) in
    let (path, r2) = unless-append-nil _ _ _ r1 in
    let (mitigated, r3) = unless-append-nil _ _ _ r2 in
    let (protected, r4) = unless-append-nil _ _ _ r3 in
    let (backed, r5) = unless-append-nil _ _ _ r4 in
    (
      evidence,
      refl,
      (
        (is_true_iff _).0 mitigated,
        λ claimed. ground (
          arith,
          backed,
          claimed,
          is_true_iff (get evidence "administrator_root_resistance_claimed"),
          is_true_iff (get evidence "external_anchor_verified"),
          is_true_iff (get evidence "signed_evidence_verified"),
        ),
      ),
    )
anchor_shown P _ h = cc

-- The installer granted no authority and approved nothing silently in the first run.
abbrev pub ShowsInstaller : Fields → Type 0
ShowsInstaller evidence =
    (get_dotted evidence "first_run.installer_grants_authority" ≡ bool false)
    × (get_dotted evidence "first_run.installer_silently_approves_permissions" ≡ bool false)

pub installer_shown :
    (P : Platform) (S : SearchLib) (evidence : Fields)
    → boundary_errors P S evidence ≡ []
    → ShowsInstaller evidence
unfolding boundary_errors dotted_is_false
installer_shown P S evidence h =
    let (created, r1) = unless-append-nil _ _ _ h in
    let (valid, r2) = unless-append-nil _ _ _ r1 in
    let (path, r3) = unless-append-nil _ _ _ r2 in
    let (writable, r4) = unless-append-nil _ _ _ r3 in
    let (probe, r5) =
      append-eq-nil (probe_errors (get_dotted evidence "first_run.audit_write_probe")) _ r4 in
    let (dir, r6) = unless-append-nil _ _ _ r5 in
    let (grants, silent) = unless-append-nil _ _ _ r6 in
    ((is_false_iff _).0 grants, (is_false_iff _).0 ((unless-eq-nil _ _).0 silent))
