-- ===== src/ContentExposure/Exposure.antt =====
-- What a projected approval can show.
use gui_shell_public.Prelude.{◌≡◌, true, arith}
use gui_shell_public.Outcome.{ok}
use gui_shell_public.Platform.{Platform}
use gui_shell_public.Value.{str, Fields, has, get}
use gui_shell_public.Value.Equal.{py_eq-str}
use gui_shell_public.ContentExposure.{project_approval_content}

module _ (P : Platform) (approval shown : Fields)
    (done : project_approval_content P approval ≡ ok shown) where
  -- A projection that returns shows the full payload only under the visibility `full`, and the
  -- redacted one only under `redacted`.
  pub projection_shows :
      (has shown "full_payload" ≡ true → get approval "content_visibility" ≡ str "full")
      × (has shown "redacted_payload" ≡ true → get approval "content_visibility" ≡ str "redacted")
  unfolding project_approval_content has
  projection_shows =
      let v = get approval "content_visibility" in
      ground (arith, py_eq-str v "full", py_eq-str v "redacted")
