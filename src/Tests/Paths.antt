-- ===== src/Tests/Paths.antt =====
-- Paths in a workspace, with a path library that has no links and runs at the root.
use Prim.Native.String
use gui_shell_public.Prelude.{
  String, ◌≡◌, refl, Bool, true, false, List, [], ◌∷◌, ◌==◌, if◌then◌else◌, Bool-cases, inl, inr,
}
use gui_shell_public.AgentRuntime.{
  Parts, PathLib, AgentRuntimeContract, is_absolute, resolve_path, path_allowed,
}
use gui_shell_public.AgentRuntime.Paths.{IsResolving, IsOpen, path_allowed_iff}

-- The parts of a text between its slashes, the first of them behind `part`.
split_on : String → String → Parts
split_on part String.[] = part ∷ []
split_on part (String.◌∷◌ c s) =
    if String.◌∷◌ c String.[] == "/"
    then part ∷ split_on "" s
    else split_on (String.◌++◌ part (String.◌∷◌ c String.[])) s

rooted : Parts → Parts
rooted path = if is_absolute path then path else "/" ∷ path

posix : PathLib
posix = record { of_text = split_on ""; resolve = rooted }

posix-IsResolving : IsResolving posix
unfolding posix rooted is_absolute
posix-IsResolving = record {
  absolute = λ path. elim (Bool-cases (is_absolute path)) [ inl a ↦ rw (a, a) | inr a ↦ rw a ];
  stable = λ path. elim (Bool-cases (is_absolute path)) [ inl a ↦ rw (a, a) | inr a ↦ rw a ];
}

abbrev workspace : AgentRuntimeContract
workspace = record {
  root_path = "/" ∷ "home" ∷ "work" ∷ [];
  resolved_secret_paths = ("/" ∷ "home" ∷ "work" ∷ "keys" ∷ []) ∷ [];
}

secret_is_refused : path_allowed posix workspace "keys/id" ≡ false
unfolding path_allowed posix gui_shell_public.AgentRuntime.is_below resolve_path split_on rooted
    gui_shell_public.AgentRuntime.is_secret_path gui_shell_public.AgentRuntime.names_secret
    gui_shell_public.Prelude.any_of gui_shell_public.AgentRuntime.secret_path_parts
    gui_shell_public.AgentRuntime.same_parts gui_shell_public.AgentRuntime.is_proper_parent
secret_is_refused = refl

notes_are_allowed : path_allowed posix workspace "notes/today.md" ≡ true
unfolding path_allowed posix gui_shell_public.AgentRuntime.is_below resolve_path split_on rooted
    gui_shell_public.AgentRuntime.is_secret_path gui_shell_public.AgentRuntime.names_secret
    gui_shell_public.Prelude.any_of gui_shell_public.AgentRuntime.secret_path_parts
    gui_shell_public.AgentRuntime.same_parts gui_shell_public.AgentRuntime.is_proper_parent
notes_are_allowed = refl

path_allowed_iff_example :
    IsOpen posix posix-IsResolving workspace
      (resolve_path posix workspace.root_path (posix.of_text "notes/today.md"))
path_allowed_iff_example =
    (path_allowed_iff posix posix-IsResolving workspace "notes/today.md").0 notes_are_allowed
