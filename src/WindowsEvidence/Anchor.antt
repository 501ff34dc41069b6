-- ===== src/WindowsEvidence/Anchor.antt =====
-- tooling/windows_release_evidence.py: the evidence that the audit anchor is protected from outside.
use gui_shell_public.Prelude.{
  String, ◌<>◌, Bool, false, not, ◌||◌, List, [], ◌∷◌, ◌++◌, any_of, is_empty, join, sort_texts,
  difference,
}
use gui_shell_public.Outcome.{Result, ok, ◌>>=◌}
use gui_shell_public.Platform.{Platform}
use gui_shell_public.Value.{
  Value, arr, obj, Items, nil, cons, Fields, get, truthy, is_true, is_false,
}
use gui_shell_public.Store.{key_of}
use gui_shell_public.AuditChain.{unless}
use gui_shell_public.ReleaseGate.{in_set}
use gui_shell_public.WindowsEvidence.{
  EvidenceResult, conclusion, is_sha256_tag, is_text, one_of, texts_under,
}
use gui_shell_public.WindowsEvidence.Provenance.{Required, validate_field_provenance}

abbrev pub audit_required_evidence_bundle_kinds : List String
audit_required_evidence_bundle_kinds = "audit_anchor_external_tamper_evidence" ∷ []

abbrev pub audit_required_field_provenance : List Required
audit_required_field_provenance =
    record {
      group = "audit_anchor.external_tamper_evidence";
      source_type = "directly_measured";
      classes = "LIVE_RUNTIME" ∷ "EXTERNAL_EVIDENCE" ∷ [];
    }
    ∷ []

-- {item.get("kind") for item in items if isinstance(item, dict)}: a list or a dict has no hash
unfoldable pub kinds_hash : Items → Result (Unit {0})
kinds_hash nil = ok tt
kinds_hash (cons (obj item) items) = do k ← key_of (get item "kind"); kinds_hash items
kinds_hash (cons v items) = kinds_hash items

kind_errors : Value → Result (List String)
kind_errors (arr (cons item items)) = do
  hashed ← kinds_hash (cons item items)
  let missing =
      sort_texts
        (difference audit_required_evidence_bundle_kinds (texts_under "kind" (cons item items)))
  ok (
      unless (is_empty missing)
        ("provenance.evidence_bundle_files に次の kind がない: " <> join ", " missing))
kind_errors _ = ok ("provenance.evidence_bundle_files に audit anchor evidence がない" ∷ [])

unfoldable pub anchor_provenance_errors : Value → Result (List String)
unfolding kind_errors
anchor_provenance_errors (obj provenance) = kind_errors (get provenance "evidence_bundle_files")
anchor_provenance_errors _ = ok ("audit anchor evidence の provenance object がない" ∷ [])

unfoldable pub is_protected : Fields → Bool
is_protected evidence =
    any_of (λ name. is_true (get evidence name))
      ("windows_acl_verified" ∷ "dpapi_verified" ∷ "external_anchor_verified"
        ∷ "signed_evidence_verified" ∷ [])

unfoldable pub claim_is_backed : Fields → Bool
claim_is_backed evidence =
    not (is_true (get evidence "administrator_root_resistance_claimed"))
    || (is_true (get evidence "external_anchor_verified")
        || is_true (get evidence "signed_evidence_verified"))

module _ (P : Platform) where
  unfoldable pub anchor_source_errors : Value → Result (List String)
  anchor_source_errors (obj source) = do
    known ←
        in_set (get source "source_kind")
          ("windows_acl_dpapi_probe" ∷ "external_anchor" ∷ "signed_evidence" ∷ [])
    ok (
        unless known
          "audit anchor の evidence_source.source_kind は windows_acl_dpapi_probe、external_anchor、signed_evidence のいずれかでなければならない"
        ++ (unless
              (one_of (get source "evidence_class") ("LIVE_RUNTIME" ∷ "EXTERNAL_EVIDENCE" ∷ []))
              "audit anchor の evidence_source.evidence_class は LIVE_RUNTIME または EXTERNAL_EVIDENCE でなければならない"
            ++ (unless (is_false (get source "synthetic")) "合成した audit anchor evidence は受理しない"
                ++ (unless (truthy (get source "command"))
                      "audit anchor の evidence_source.command がない"
                    ++ (unless (truthy (get source "path"))
                          "audit anchor の evidence_source.path がない"
                        ++ unless (is_sha256_tag P (get source "sha256"))
                            "audit anchor の evidence_source.sha256 には sha256 tag が必要である")))))
  anchor_source_errors _ = ok ("audit anchor の evidence_source がない" ∷ [])

  unfoldable pub tamper_errors : Value → Result (List String)
  tamper_errors (obj evidence) = do
    source ← anchor_source_errors (get evidence "evidence_source")
    ok (
        unless (is_text (get evidence "status") "passed")
          "audit_anchor_external_tamper_evidence.status は passed でなければならない"
        ++ (unless (is_true (get evidence "installed_path_verified"))
              "audit anchor evidence は installed app path から測定しなければならない"
            ++ (unless (is_true (get evidence "key_anchor_log_same_user_rewrite_mitigated"))
                  "同一 user による key+anchor+log rewrite の緩和策を検証しなければならない"
                ++ (unless (is_protected evidence)
                      "audit anchor evidence は Windows ACL、DPAPI、external anchor、signed evidence のいずれかを検証しなければならない"
                    ++ (unless (claim_is_backed evidence)
                          "administrator/root resistance には external anchor または signed evidence が必要である"
                        ++ source)))))
  tamper_errors _ = ok ("audit_anchor_external_tamper_evidence object がない" ∷ [])

  -- `validate_audit_anchor_external_tamper_evidence`
  unfoldable pub validate_audit_anchor : Fields → Result EvidenceResult
  validate_audit_anchor evidence = do
    origin ← anchor_provenance_errors (get evidence "provenance")
    tamper ← tamper_errors (get evidence "audit_anchor_external_tamper_evidence")
    ok (
        conclusion
          (origin
            ++ (validate_field_provenance evidence audit_required_field_provenance false ++ tamper))
          "audit_anchor_external_tamper_evidence_proof"
          "product release claim の前に、audit_anchor.key、audit_anchor.json、audit.jsonl に対する Windows installed-path の ACL/DPAPI、external-anchor、signed-evidence のいずれかの証明を収集する。"
          "Windows installed-path の audit anchor に対する external tamper-evidence proof が機械検証に合格した。"
          "release candidate ごとに audit anchor key-protection または external-anchor evidence を最新に保つ。")
