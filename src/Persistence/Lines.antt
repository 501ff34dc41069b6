-- ===== src/Persistence/Lines.antt =====
-- packages/shell_core/persistence.py: the events that the lines of the audit file hold.
use gui_shell_public.Prelude.{
  String, ◌≡◌, refl, ap, sym, ◌∙◌, ◌↔◌, inl, inr, false, ◌==◌, List, [], ◌∷◌, Option, none, some,
  map, Bool-cases, if◌then◌else◌, ℕ, suc,
}
use gui_shell_public.Platform.{Platform}
use gui_shell_public.Value.{Value, obj, Fields}
use gui_shell_public.Normalization.Text.{strip}
use gui_shell_public.Persistence.{FileLib, Disk, read_line, read_lines, audit_events_report}

cons-injective : {A : Type 0} {x y : A} {xs ys : List A} → x ∷ xs ≡ y ∷ ys → (x ≡ y) × (xs ≡ ys)
cons-injective h = (cc, cc)

-- The lines that are not blank.
unfoldable pub filled : List String → List String
filled [] = []
filled (line ∷ lines) = let rest = filled lines in if strip line == "" then rest else line ∷ rest

module _ (P : Platform) (L : FileLib) where
  abbrev lines_of : Option String → List String
  lines_of none = []
  lines_of (some text) = L.split_lines text

  -- The lines of the audit file that are not blank are the JSON texts of these events, in this order.
  abbrev pub HoldsEvents : Disk → List Fields → Type 0
  HoldsEvents d events =
      map P.json_loads (filled (lines_of d.audit_text)) ≡ map (λ event. some (obj event)) events

  read_line_event :
      (i : ℕ) (line : String) (loaded : Option Value) (rest : List Fields × List String)
      → (read_line P L i line loaded rest).1 ≡ []
      → (event : Fields) × (loaded ≡ some (obj event))
        × (read_line P L i line loaded rest ≡ (event ∷ rest.0, rest.1))
  unfolding read_line
  read_line_event i line none rest h = cc
  read_line_event i line (some (obj event)) rest h = (event, refl, refl)
  read_line_event i line (some _) rest h = cc

  read_lines_events :
      (i : ℕ) (lines : List String)
      → (read_lines P L i lines).1 ≡ []
      → map P.json_loads (filled lines) ≡ map (λ event. some (obj event)) (read_lines P L i lines).0
  unfolding read_lines filled
  read_lines_events i [] h = refl
  read_lines_events i (line ∷ lines) h = elim (Bool-cases (strip line == "")) [
    | inl blank ↦ rw blank (read_lines_events (suc i) lines (rw blank at h))
    | inr text ↦
        let rest = read_lines P L (suc i) lines in
        let (event, loaded, made) =
          read_line_event i line (P.json_loads line) rest (rw text at h) in
        let clean = ap (λ (x : List Fields × List String). x.1) (sym made) ∙ (rw text at h) in
        rw (text, made, loaded, read_lines_events (suc i) lines clean) refl
  ]

  filled_line :
      (i : ℕ) (line : String) (lines : List String) (events : List Fields)
      → ((after : List Fields)
          → map P.json_loads (filled lines) ≡ map (λ event. some (obj event)) after
          → read_lines P L (suc i) lines ≡ (after, []))
      → (strip line == "") ≡ false
      → P.json_loads line ∷ map P.json_loads (filled lines) ≡ map (λ event. some (obj event)) events
      → read_lines P L i (line ∷ lines) ≡ (events, [])
  unfolding read_lines read_line
  filled_line i line lines [] next text h = cc
  filled_line i line lines (event ∷ events) next text h =
      let (loaded, others) = cons-injective h in rw (text, loaded, next events others) refl

  events_read_lines :
      (i : ℕ) (lines : List String) (events : List Fields)
      → map P.json_loads (filled lines) ≡ map (λ event. some (obj event)) events
      → read_lines P L i lines ≡ (events, [])
  unfolding read_lines read_line filled
  events_read_lines i [] [] h = refl
  events_read_lines i [] (event ∷ events) h = cc
  events_read_lines i (line ∷ lines) events h = elim (Bool-cases (strip line == "")) [
    | inl blank ↦ rw blank (events_read_lines (suc i) lines events (rw blank at h))
    | inr text ↦
        filled_line i line lines events (events_read_lines (suc i) lines) text (rw text at h)
  ]

  report_of :
      (text : Option String) (events : List Fields)
      → ◌≡◌ {A = List Fields × List String}
          (elim text [ none ↦ ([], []) | some t ↦ read_lines P L 1 (L.split_lines t) ])
          (events, [])
        ↔ (map P.json_loads (filled (lines_of text)) ≡ map (λ event. some (obj event)) events)
  unfolding filled
  report_of none [] = (λ h. refl, λ h. refl)
  report_of none (event ∷ events) =
      (λ h. cc (ap (λ (x : List Fields × List String). x.0) h), λ h. cc)
  report_of (some t) events = (
    λ h.
        read_lines_events 1 (L.split_lines t) (ap (λ (x : List Fields × List String). x.1) h)
        ∙ ap (λ (x : List Fields × List String). map (λ event. some (obj event)) x.0) h,
    events_read_lines 1 (L.split_lines t) events,
  )

  -- The report of a file has these events and no error exactly when the file holds them.
  pub audit_events_report_iff :
      (d : Disk) (events : List Fields)
      → (audit_events_report P L d ≡ (events, [])) ↔ HoldsEvents d events
  unfolding audit_events_report
  audit_events_report_iff d events = report_of d.audit_text events
