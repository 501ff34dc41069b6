-- ===== src/Hash.antt =====
-- `canonical_hash`, of packages/shell_core/approval_queue.py and, word for word, of audit_chain.py.
use gui_shell_public.Prelude.{String, ◌<>◌}
use gui_shell_public.Platform.{Platform}
use gui_shell_public.Value.{Value}
use gui_shell_public.Value.Text.{json_dumps}

unfoldable pub canonical_hash : Platform → Value → String
canonical_hash P payload = "sha256:" <> P.sha256 (json_dumps payload)
