-- ===== src/WindowsEvidence.antt =====
-- tooling/windows_release_evidence.py: the results of the evidence, and how its fields are read.
pub mod Surfaces
pub mod Provenance
pub mod FirstRun
pub mod SetupDoctor
pub mod Broker
pub mod Anchor
pub mod Release
pub mod Shown
pub mod Accepted
use gui_shell_public.Prelude.{
  String, ◌<>◌, Bool, true, false, not, ◌&&◌, ◌||◌, ◌==◌, ℕ, List, [], ◌∷◌, Option, none, some,
  any_of, is_empty, if◌then◌else◌, split_on, join, eqb, Char, code,
}
use gui_shell_public.Outcome.{Result, ok, err, ◌>>=◌}
use gui_shell_public.Platform.{Platform}
use gui_shell_public.Value.{
  Value, null, bool, num, str, arr, obj, Items, nil, cons, Fields, has, get, truthy, is_true,
  is_false,
}
use gui_shell_public.Value.Equal.{py_eq}
use gui_shell_public.Value.Text.{text_of}

pub record EvidenceResult : Type 0 where
  pub name : String
  pub status : String
  pub classification : String
  pub blocks_release : String
  pub reason : String
  pub required_action : String

unfoldable pub failed : String → String → String → EvidenceResult
failed name reason required_action = record {
  name = name;
  status = "failed";
  classification = "release_blocker";
  blocks_release = "yes";
  reason = reason;
  required_action = required_action;
}

unfoldable pub passed : String → String → String → EvidenceResult
passed name reason required_action = record {
  name = name;
  status = "passed";
  classification = "none";
  blocks_release = "no";
  reason = reason;
  required_action = required_action;
}

-- How each validation ends: if errors: return _failed(…), and return _passed(…) otherwise.
unfoldable pub conclusion : List String → String → (required reason kept : String) → EvidenceResult
conclusion errors name required reason kept =
    if is_empty errors then passed name reason kept else failed name (join "; " errors) required

-- What the validations take from Python: s.lower(), and
-- re.search(re.escape(label), s, flags=re.IGNORECASE) is not None.
pub record SearchLib : Type 0 where
  pub lower : String → String
  pub search_label : String → String → Bool

get_path : Value → List String → Value
get_path v [] = v
get_path (obj d) (part ∷ parts) =
    let rest = get_path (get d part) parts in elim (has d part) [ true ↦ rest | false ↦ null ]
get_path _ (part ∷ parts) = null

-- _get(data, dotted)
unfoldable pub get_dotted : Fields → String → Value
unfolding get_path
get_dotted evidence dotted = get_path (obj evidence) (split_on "." dotted)

unfoldable pub dotted_is_true : Fields → String → Bool
dotted_is_true evidence dotted = is_true (get_dotted evidence dotted)

unfoldable pub dotted_is_false : Fields → String → Bool
dotted_is_false evidence dotted = is_false (get_dotted evidence dotted)

-- str(value or "")
unfoldable pub str_or_empty : Platform → Value → String
str_or_empty P v = if truthy v then text_of P.repr_str v else ""

abbrev pub sha256_re : String
sha256_re = "^sha256:[0-9a-f]{64}$"

unfoldable pub is_sha256_tag : Platform → Value → Bool
is_sha256_tag P v = P.re_match sha256_re (str_or_empty P v)

-- value != text, negated
unfoldable pub is_text : Value → String → Bool
is_text v s = py_eq v (str s)

-- value in (text, …) of a tuple of texts
unfoldable pub one_of : Value → List String → Bool
one_of v texts = any_of (λ s. py_eq v (str s)) texts

-- isinstance(value, int)
unfoldable pub is_int : Value → Bool
is_int (num n) = true
is_int (bool b) = true
is_int _ = false

-- any(test(item) for item in items if isinstance(item, dict))
unfoldable pub any_record : (Fields → Bool) → Items → Bool
any_record test nil = false
any_record test (cons (obj d) items) = test d || any_record test items
any_record test (cons v items) = any_record test items

-- {item.get(key) for item in items if isinstance(item, dict) and isinstance(item.get(key), str)}
unfoldable pub texts_under : String → Items → List String
texts_under key nil = []
texts_under key (cons (obj d) items) =
    let rest = texts_under key items in elim (get d key) [ str text ↦ text ∷ rest | _ ↦ rest ]
texts_under key (cons v items) = texts_under key items

-- path.replace("/", "\\")
unfoldable pub with_backslashes : String → String
with_backslashes String.[] = ""
with_backslashes (String.◌∷◌ c s) =
    String.◌∷◌ (elim (eqb (code c) 47) [ true ↦ "\\" | false ↦ c ]) (with_backslashes s)
