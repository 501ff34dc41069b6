-- ===== src/Prelude/Sets.antt =====
-- Python's sets of texts, as lists: membership, the set of a list, difference, and `sorted`.
use gui_shell_public.Prelude.Lists.{All}
use Prim.Native.String.{String}
use mathlib.Core.Path.{◌≡◌, refl, ◌∙◌}
use mathlib.Core.Bool.{true, Bool, false, not, ◌&&◌, ◌||◌}
use mathlib.Core.Logic.{◌↔◌}
use mathlib.Core.List.{List, [], ◌∷◌, ◌++◌}
use native.Mathlib.Omega.{arith}
use text.Mathlib.Text.{◌==◌}
use text.Mathlib.TextEquality.{eq_iff}
use gui_shell_public.Prelude.Tests.{if◌then◌else◌}
use gui_shell_public.Prelude.Texts.{text_lt}

-- text in texts
unfoldable pub member : String → List String → Bool
member t [] = false
member t (u ∷ us) = u == t || member t us

-- set(texts)
unfoldable pub as_set : List String → List String
as_set [] = []
as_set (t ∷ ts) = let rest = as_set ts in if member t rest then rest else t ∷ rest

-- set(ts) - set(us)
unfoldable pub difference : List String → List String → List String
difference [] us = []
difference (t ∷ ts) us = let rest = difference ts us in if member t us then rest else t ∷ rest

unfoldable pub insert_text : String → List String → List String
insert_text t [] = t ∷ []
insert_text t (u ∷ rest) =
    let more = insert_text t rest in if text_lt u t then u ∷ more else t ∷ u ∷ rest

-- sorted(texts)
unfoldable pub sort_texts : List String → List String
unfolding insert_text
sort_texts [] = []
sort_texts (t ∷ rest) = insert_text t (sort_texts rest)

member-insert_text :
    (t u : String) (ts : List String) → member t (insert_text u ts) ≡ (u == t || member t ts)
unfolding member insert_text
member-insert_text t u [] = refl
member-insert_text t u (v ∷ ts) = ground (arith, member-insert_text t u ts)

pub member-sort_texts : (t : String) (ts : List String) → member t (sort_texts ts) ≡ member t ts
unfolding member sort_texts
member-sort_texts t [] = refl
member-sort_texts t (u ∷ ts) = rw (member-insert_text t u (sort_texts ts), member-sort_texts t ts)

pub member-as_set : (t : String) (ts : List String) → member t (as_set ts) ≡ member t ts
unfolding member as_set
member-as_set t [] = refl
member-as_set t (u ∷ ts) = ground (arith, member-as_set t ts, member-as_set u ts, eq_iff u t)

pub member-difference :
    (t : String) (ts us : List String)
    → member t (difference ts us) ≡ (member t ts && not (member t us))
unfolding member difference
member-difference t [] us = refl
member-difference t (u ∷ ts) us = ground (arith, member-difference t ts us, eq_iff u t)

pub member-append :
    (t : String) (ts us : List String) → member t (ts ++ us) ≡ (member t ts || member t us)
unfolding member
member-append t [] us = refl
member-append t (u ∷ ts) us = ground (arith, member-append t ts us)

pub no_member_iff : (ts : List String) → (ts ≡ []) ↔ ((t : String) → member t ts ≡ false)
unfolding member
no_member_iff [] = (λ h t. refl, λ h. refl)
no_member_iff (t ∷ ts) = (λ h. cc, λ h. ground (arith, h t, eq_iff t t))

-- No text occurs twice.
abbrev pub Distinct : List String → Type 0
Distinct [] = Unit
Distinct (t ∷ ts) = (member t ts ≡ false) × Distinct ts

Distinct-insert_text :
    (t : String) (ts : List String)
    → member t ts ≡ false
    → Distinct ts
    → Distinct (insert_text t ts)
unfolding member insert_text
Distinct-insert_text t [] new once = (refl, tt)
Distinct-insert_text t (u ∷ ts) new once =
    ground (arith, Distinct-insert_text t ts, member-insert_text u t ts, eq_iff t u, eq_iff u t)

pub Distinct-sort_texts : (ts : List String) → Distinct ts → Distinct (sort_texts ts)
unfolding sort_texts
Distinct-sort_texts [] once = tt
Distinct-sort_texts (t ∷ ts) once =
    Distinct-insert_text t (sort_texts ts) (member-sort_texts t ts ∙ once.0)
      (Distinct-sort_texts ts once.1)

pub Distinct-as_set : (ts : List String) → Distinct (as_set ts)
unfolding as_set
Distinct-as_set [] = tt
Distinct-as_set (t ∷ ts) = ground (arith, Distinct-as_set ts)

-- No text of the second list is in the first.
abbrev pub Unseen : List String → List String → Type 0
Unseen seen = All (λ path. member path seen ≡ false)

pub Unseen-append :
    (seen : List String) (p : String) (ps : List String)
    → Unseen (seen ++ (p ∷ [])) ps ↔ (Unseen seen ps × (member p ps ≡ false))
unfolding member
Unseen-append seen p [] = (λ h. (tt, refl), λ h. tt)
Unseen-append seen p (q ∷ ps) =
    ground (arith, Unseen-append seen p ps, member-append q seen (p ∷ []), eq_iff p q, eq_iff q p)

-- Nothing was seen before the first entry.
pub Unseen-of_nothing : (ps : List String) → Unseen [] ps
unfolding member
Unseen-of_nothing [] = tt
Unseen-of_nothing (p ∷ ps) = (refl, Unseen-of_nothing ps)

-- A text of a set whose difference to another is empty is in the other.
pub member_of_difference-nil :
    (ts us : List String)
    → sort_texts (difference ts us) ≡ []
    → (t : String) → member t ts ≡ true
    → member t us ≡ true
member_of_difference-nil ts us h t there =
    let none_left = (no_member_iff (sort_texts (difference ts us))).0 h t in
    ground
      (arith, none_left, there, member-sort_texts t (difference ts us), member-difference t ts us)
