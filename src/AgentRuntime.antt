-- ===== src/AgentRuntime.antt =====
-- packages/agent_runtime/contract.py: which paths an agent may touch, and what its records must say.
pub mod Paths
use gui_shell_public.Prelude.{
  String, Bool, true, false, not, ◌&&◌, ◌||◌, List, [], ◌∷◌, ◌++◌, ◌==◌, any_of, if◌then◌else◌, map,
}
use gui_shell_public.Outcome.{Result, ok, err, type_error, ◌>>=◌}
use gui_shell_public.Value.{
  Value, str, arr, Items, nil, cons, Fields, get, get_or, index, truthy, is_true,
}
use gui_shell_public.Value.Equal.{py_eq}
use gui_shell_public.Store.{key_of, key_eqb, text_key}
use gui_shell_public.Schema.Validation.{iterate}

-- A path as its `parts`; those of an absolute path begin with "/".
abbrev pub Parts : Type 0
Parts = List String

-- pathlib, and the file system's links behind `resolve`.
pub record PathLib : Type 0 where
  pub of_text : String → Parts
  pub resolve : Parts → Parts

unfoldable pub is_absolute : Parts → Bool
is_absolute [] = false
is_absolute (part ∷ path) = part == "/"

-- The path lies at the root or below it: `relative_to` succeeds.
unfoldable pub is_below : Parts → Parts → Bool
is_below [] path = true
is_below (part ∷ root) [] = false
is_below (part ∷ root) (p ∷ path) = part == p && is_below root path

-- other in path.parents
unfoldable pub is_proper_parent : Parts → Parts → Bool
is_proper_parent [] [] = false
is_proper_parent [] (p ∷ path) = true
is_proper_parent (part ∷ other) [] = false
is_proper_parent (part ∷ other) (p ∷ path) = part == p && is_proper_parent other path

unfoldable pub same_parts : Parts → Parts → Bool
same_parts [] [] = true
same_parts (p ∷ path) (q ∷ other) = p == q && same_parts path other
same_parts _ _ = false

-- SECRET_PATH_PARTS
unfoldable pub secret_path_parts : List String
secret_path_parts = ".env" ∷ ".ssh" ∷ ".gnupg" ∷ "secrets" ∷ []

pub record AgentRuntimeContract : Type 0 where
  pub root_path : Parts
  pub resolved_secret_paths : List Parts

module _ (L : PathLib) where
  -- `_resolve_candidate` on a path
  unfoldable pub resolve_path : Parts → Parts → Parts
  unfolding is_absolute
  resolve_path root path = if is_absolute path then L.resolve path else L.resolve (root ++ path)

  text_path : Value → Result Parts
  text_path (str s) = ok (L.of_text s)
  text_path _ = err (type_error "")

  resolved_secrets : Parts → Items → Result (List Parts)
  resolved_secrets root nil = ok []
  resolved_secrets root (cons secret secrets) = do
    path ← text_path secret
    rest ← resolved_secrets root secrets
    ok (resolve_path root path ∷ rest)

  -- AgentRuntimeContract(workspace)
  unfoldable pub new_contract : Fields → Result AgentRuntimeContract
  unfolding text_path resolved_secrets
  new_contract workspace = do
    root ← index workspace "root_path"
    root_text ← text_path root
    let root_path = L.resolve root_text
    secrets ← iterate (get_or workspace "secret_paths" (arr nil))
    resolved ← resolved_secrets root_path secrets
    ok (record { root_path = root_path; resolved_secret_paths = resolved })

  -- The path has a secret part, or is a declared secret path or below one.
  unfoldable pub names_secret : List Parts → Parts → Bool
  names_secret secrets path =
      any_of (λ part. any_of (λ secret. secret == part) secret_path_parts) path
      || any_of (λ secret. same_parts path secret || is_proper_parent secret path) secrets

  unfoldable pub is_secret_path : AgentRuntimeContract → Parts → Bool
  is_secret_path c candidate =
      names_secret c.resolved_secret_paths (resolve_path c.root_path candidate)

  unfoldable pub path_allowed : AgentRuntimeContract → String → Bool
  path_allowed c candidate =
      let path = resolve_path c.root_path (L.of_text candidate) in
      if is_below c.root_path path then not (is_secret_path c path) else false

unfoldable pub shell_command_requires_permission : Fields → Bool
shell_command_requires_permission tool_call =
    py_eq (get tool_call "tool_name") (str "shell.command")
    && truthy (get tool_call "permission_id")

unfoldable pub git_push_requires_explicit_approval : Fields → Bool
git_push_requires_explicit_approval tool_call =
    if not (py_eq (get tool_call "tool_name") (str "git.push"))
    then true
    else is_true (get tool_call "approval_required") && truthy (get tool_call "permission_id")

unfoldable pub diff_is_auditable : Fields → Bool
diff_is_auditable diff = truthy (get diff "audit_event_id") && truthy (get diff "payload_hash")

-- runtime.get("auto_permission_mode") in {"disabled", "advisory_only"}
unfoldable pub auto_permission_is_advisory_only : Fields → Result Bool
auto_permission_is_advisory_only runtime = do
  mode ← key_of (get runtime "auto_permission_mode")
  ok (any_of (key_eqb mode) (text_key "disabled" ∷ text_key "advisory_only" ∷ []))

unfoldable pub state_change_has_rollback : Fields → Bool
state_change_has_rollback r = truthy (get r "rollback_candidate_id")
