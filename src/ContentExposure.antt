-- ===== src/ContentExposure.antt =====
-- packages/shell_core/content_exposure.py: what of an approval's payload is shown.
pub mod Exposure
use gui_shell_public.Prelude.{String, ◌<>◌, Bool, true, false, if◌then◌else◌}
use gui_shell_public.Outcome.{Result, ok, ◌>>=◌}
use gui_shell_public.Platform.{Platform}
use gui_shell_public.Value.{Value, str, obj, Fields, end, field, get, get_or, index}
use gui_shell_public.Value.Equal.{py_eq}
use gui_shell_public.Value.Text.{text_of}
use gui_shell_public.ErrorTaxonomy.{content_visibility_violation, shell_error, to_dict}

module _ (P : Platform) where
  unfoldable pub project_approval_content : Fields → Result Fields
  project_approval_content approval =
      let visibility = get approval "content_visibility" in
      let hash_only = (do
        hash ← index approval "payload_hash"
        ok (field "payload_hash" hash end)) in
      if py_eq visibility (str "none")
      then ok end
      else if py_eq visibility (str "hash_only")
      then hash_only
      else if py_eq visibility (str "summary")
      then ok (field "summary" (get_or approval "summary" (str "")) end)
      else if py_eq visibility (str "redacted")
      then ok (field "redacted_payload" (get_or approval "redacted_payload" (obj end)) end)
      else if py_eq visibility (str "full")
      then ok (field "full_payload" (get_or approval "full_payload" (obj end)) end)
      else ok (
          field "error"
            (to_dict (
              shell_error content_visibility_violation
                ("未知または欠落した content_visibility です: " <> text_of P.repr_str visibility)
                (str "content_projection")))
            end)
