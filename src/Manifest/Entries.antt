-- ===== src/Manifest/Entries.antt =====
-- tooling/manifest.py: what the loop over the entries of a manifest finds.
use gui_shell_public.Prelude.{
  Unseen, Unseen-append, String, ◌≡◌, refl, sym, ap, ◌∙◌, ◌↔◌, ◌≢◌, Bool, true, false, eq_iff, ℕ,
  suc, List, [], ◌∷◌, ◌++◌, map, none, some, Option-cases, inl, inr, All, member, append-eq-nil,
  append-nil, append_assoc, arith, Distinct,
}
use gui_shell_public.Value.{Value}
use gui_shell_public.AuditChain.{unless}
use gui_shell_public.Manifest.{Workspace, ManifestEntry, is_excluded_relative}
use gui_shell_public.Manifest.Check.{listed_entry, file_errors, entry_errors, check_entries}

abbrev pub paths : List ManifestEntry → List String
paths [] = []
paths (e ∷ entries) = e.path ∷ paths entries

-- An entry for something that exists and is not excluded; of a file, it has the digest.
abbrev pub IsRight : Workspace → ManifestEntry → Type 0
IsRight W e =
    (is_excluded_relative e.path ≡ false)
    × (W.exists e.path ≡ true)
    × (W.is_file e.path ≡ true → W.digest e.path ≡ e.sha256)

pub unless-eq-nil : (b : Bool) (message : String) → (unless b message ≡ []) ↔ (b ≡ true)
unfolding unless
unless-eq-nil true message = (λ h. refl, λ h. refl)
unless-eq-nil false message = (λ h. cc, λ h. cc)

-- A test that passed, and the errors behind it.
pub unless-append-nil :
    (b : Bool) (message : String) (errors : List String)
    → unless b message ++ errors ≡ []
    → (b ≡ true) × (errors ≡ [])
unless-append-nil b message errors h =
    let (here, rest) = append-eq-nil (unless b message) errors h in
    ((unless-eq-nil b message).0 here, rest)

pub map-eq-nil : (f : String → String) (ts : List String) → (map f ts ≡ []) ↔ (ts ≡ [])
map-eq-nil f [] = (λ h. refl, λ h. refl)
map-eq-nil f (t ∷ ts) = (λ h. cc, λ h. cc)

entry_errors_iff :
    (W : Workspace) (seen : List String) (e : ManifestEntry)
    → (entry_errors W seen e ≡ []) ↔ ((member e.path seen ≡ false) × IsRight W e)
unfolding entry_errors file_errors unless
entry_errors_iff W seen e = ground (arith, eq_iff (W.digest e.path) e.sha256)

-- The manifest's entries, as they were read.
abbrev pub IsRead : List Value → List ManifestEntry → Type 0
IsRead vs entries = map listed_entry vs ≡ map some entries

cons-injective {ℓ} : {A : Type ℓ} {a b : A} {xs ys : List A} → a ∷ xs ≡ b ∷ ys → (a ≡ b) × (xs ≡ ys)
cons-injective h = (cc, cc)

pub cons-nonempty {ℓ} : {A : Type ℓ} {x : A} {xs : List A} → x ∷ xs ≢ []
cons-nonempty h = cc

check_entries-bad :
    (W : Workspace) (i : ℕ) (seen : List String) (v : Value) (vs : List Value)
    → listed_entry v ≡ none
    → (check_entries W i seen (v ∷ vs)).0 ≢ []
unfolding check_entries
check_entries-bad W i seen v vs bad = rw (check_entries, bad) λ h. cc

check_entries-good :
    (W : Workspace) (i : ℕ) (seen : List String) (v : Value) (vs : List Value) (e : ManifestEntry)
    → listed_entry v ≡ some e
    → check_entries W i seen (v ∷ vs) ≡ (
      entry_errors W seen e ++ (check_entries W (suc i) (seen ++ (e.path ∷ [])) vs).0,
      (check_entries W (suc i) (seen ++ (e.path ∷ [])) vs).1,
    )
unfolding check_entries
check_entries-good W i seen v vs e good = rw (check_entries, good) refl

pub check_entries-listed :
    (W : Workspace) (i : ℕ) (seen : List String) (vs : List Value) (entries : List ManifestEntry)
    → IsRead vs entries
    → (check_entries W i seen vs).1 ≡ seen ++ paths entries
unfolding check_entries
check_entries-listed W i seen [] [] h = sym (append-nil seen)
check_entries-listed W i seen [] (e ∷ entries) h = cc
check_entries-listed W i seen (v ∷ vs) [] h = cc
check_entries-listed W i seen (v ∷ vs) (e ∷ entries) h =
    let (read, rest) = cons-injective h in
    rw
      (
        check_entries-good W i seen v vs e read,
        check_entries-listed W (suc i) (seen ++ (e.path ∷ [])) vs entries rest,
      )
      (append_assoc seen (e.path ∷ []) (paths entries))

pub check_entries-clean :
    (W : Workspace) (i : ℕ) (seen : List String) (vs : List Value)
    → (check_entries W i seen vs).0 ≡ []
    → (entries : List ManifestEntry) × IsRead vs entries
      × All (IsRight W) entries
      × Distinct (paths entries)
      × Unseen seen (paths entries)
check_entries-clean W i seen [] h = ([], refl, tt, tt, tt)
check_entries-clean W i seen (v ∷ vs) h = elim (Option-cases (listed_entry v)) [
  | inl bad ↦ absurd (check_entries-bad W i seen v vs bad h)
  | inr (e, good) ↦
      let (here, later) =
        append-eq-nil _ _ (sym (ap (λ r. r.0) (check_entries-good W i seen v vs e good)) ∙ h) in
      let (unseen, right) = (entry_errors_iff W seen e).0 here in
      let (entries, read, rights, distinct, behind) =
        check_entries-clean W (suc i) (seen ++ (e.path ∷ [])) vs later in
      let (before, fresh) = (Unseen-append seen e.path (paths entries)).0 behind in
      (e ∷ entries, rw (good, read) refl, (right, rights), (fresh, distinct), (unseen, before))
]

pub check_entries-passes :
    (W : Workspace) (i : ℕ) (seen : List String) (vs : List Value) (entries : List ManifestEntry)
    → IsRead vs entries
    → All (IsRight W) entries
    → Distinct (paths entries)
    → Unseen seen (paths entries)
    → (check_entries W i seen vs).0 ≡ []
unfolding check_entries
check_entries-passes W i seen [] entries read right distinct unseen = refl
check_entries-passes W i seen (v ∷ vs) [] read right distinct unseen = cc
check_entries-passes W i seen (v ∷ vs) (e ∷ entries) read right distinct unseen =
    let (good, rest) = cons-injective read in
    let behind = (Unseen-append seen e.path (paths entries)).1 (unseen.1, distinct.0) in
    rw
      (
        check_entries-good W i seen v vs e good,
        (entry_errors_iff W seen e).1 (unseen.0, right.0),
        check_entries-passes W (suc i) (seen ++ (e.path ∷ [])) vs entries rest right.1 distinct.1
            behind,
      )
      refl
