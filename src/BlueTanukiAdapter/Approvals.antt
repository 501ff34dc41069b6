-- ===== src/BlueTanukiAdapter/Approvals.antt =====
-- packages/blue_tanuki_adapter/approvals.py: the approval that the shell makes of what the adapter
-- sends.
use gui_shell_public.Prelude.{
  ◌≡◌, ◌≢◌, refl, sym, ◌∙◌, ◌⊎◌, inl, inr, true, ◌&&◌, [], ◌∷◌, if◌then◌else◌, Bool-cases,
}
use gui_shell_public.Outcome.{Result}
use gui_shell_public.Platform.{Platform}
use gui_shell_public.Value.{Value, str, obj, Fields, get, get_or, is_true, dict, list, put}
use gui_shell_public.Value.Equal.{py_eq, py_eq-str}
use gui_shell_public.ContentExposure.{project_approval_content}

-- The status that the approval starts with.
unfoldable pub reported_status : Fields → Value
reported_status source =
    if is_true (get source "adapter_approved")
    then str "pending"
    else get_or source "status" (str "pending")

-- The approval in front of the last check of its status.
unfoldable pub drafted_approval : Fields → Fields
drafted_approval source = dict (
    ("approval_id", get_or source "approval_id" (str "blue-tanuki-approval-1"))
    ∷ ("runtime_id", str "blue_tanuki")
    ∷ ("operation", get_or source "operation" (str "runtime.read"))
    ∷ ("target_scope", get_or source "target_scope" (str "runtime_status"))
    ∷ ("status", reported_status source)
    ∷ ("content_visibility", get_or source "content_visibility" (str "redacted"))
    ∷ (
      "payload_hash",
      get_or source "payload_hash"
          (str "sha256:3333333333333333333333333333333333333333333333333333333333333333"),
    )
    ∷ ("summary", get_or source "summary" (str "BLUE-TANUKI runtime 操作を確認してください。"))
    ∷ (
      "redacted_payload",
      get_or source "redacted_payload"
          (obj (dict (("target", str "runtime") ∷ ("details", str "[redacted]") ∷ []))),
    )
    ∷ (
      "full_payload",
      get_or source "full_payload"
          (obj (dict (("target", str "runtime") ∷ ("details", str "mock") ∷ []))),
    )
    ∷ ("editable_fields", get_or source "editable_fields" (list (str "target" ∷ [])))
    ∷ ("sealed_fields", get_or source "sealed_fields" (list (str "runtime_id" ∷ [])))
    ∷ ("hidden_fields", get_or source "hidden_fields" (list []))
    ∷ ("sacred_fields", get_or source "sacred_fields" (list (str "authority_context" ∷ [])))
    ∷ ("authority_fields", get_or source "authority_fields" (list (str "permission_id" ∷ [])))
    ∷ [])

unfoldable pub normalize_approval : Fields → Fields
normalize_approval source =
    let approval = drafted_approval source in
    if py_eq (get approval "status") (str "approved")
      && py_eq (get source "approved_by") (str "adapter")
    then put approval "status" (str "pending")
    else approval

unfoldable pub projected_approval : Platform → Fields → Result Fields
projected_approval P source = project_approval_content P (normalize_approval source)

-- `approvals` of adapter.py
unfoldable pub approvals : Value
approvals = list (obj (normalize_approval (dict [])) ∷ [])

drafted_status : (source : Fields) → get (drafted_approval source) "status" ≡ reported_status source
unfolding drafted_approval get
drafted_status source = refl

demoted_status :
    (source : Fields)
    → get (put (drafted_approval source) "status" (str "pending")) "status" ≡ str "pending"
unfolding drafted_approval get put
demoted_status source = refl

pending_is_not_approved : str "pending" ≢ str "approved"
pending_is_not_approved h = cc

-- If the source says that the adapter approved, by adapter_approved=True or by approved_by="adapter",
-- then the normalized approval is not approved.
pub adapter_cannot_approve :
    (source : Fields)
    → (is_true (get source "adapter_approved") ≡ true) ⊎ (get source "approved_by" ≡ str "adapter")
    → get (normalize_approval source) "status" ≢ str "approved"
unfolding normalize_approval reported_status
adapter_cannot_approve source claim h =
    elim (Bool-cases (
      py_eq (get (drafted_approval source) "status") (str "approved")
      && py_eq (get source "approved_by") (str "adapter"))) [
        | inl both ↦ pending_is_not_approved (sym (demoted_status source) ∙ rw both at h)
        | inr kept ↦
            let own : get (drafted_approval source) "status" ≡ str "approved" = rw kept at h in
            elim claim [
              | inl flagged ↦
                  pending_is_not_approved (sym (rw flagged at (drafted_status source)) ∙ own)
              | inr named ↦ cc (
                  rw
                    (
                      (py_eq-str (get (drafted_approval source) "status") "approved").1 own,
                      (py_eq-str (get source "approved_by") "adapter").1 named,
                    )
                    at kept)
            ]
      ]
