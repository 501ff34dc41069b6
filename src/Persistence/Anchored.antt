-- ===== src/Persistence/Anchored.antt =====
-- packages/shell_core/persistence.py: when the anchor's file fits the events of the audit file.
use gui_shell_public.Prelude.{
  String, ◌<>◌, ◌≡◌, refl, ap, sym, ◌∙◌, ◌↔◌, ◌⊎◌, inl, inr, Bool, true, List, [], ◌∷◌, Option,
  none, some, length, is_empty_iff, Bool-cases, arith,
}
use mathlib.Core.Option.{some-injective}
use gui_shell_public.Prelude.Int.{pos}
use gui_shell_public.Outcome.{Result, ok, err, ok-injective}
use gui_shell_public.Platform.{Platform}
use gui_shell_public.Value.{Value, num, str, obj, Fields, dict, put}
use gui_shell_public.Value.Equal.{py_eq}
use gui_shell_public.Value.Text.{json_dumps}
use gui_shell_public.Normalization.Text.{strip}
use gui_shell_public.AuditChain.{unless}
use gui_shell_public.Persistence.{
  FileLib, Disk, then_on, latest_hash, anchor_body, anchor_record, anchor_key, key_from,
  compare_anchor, check_anchor, verify_audit_anchor,
}

unless-eq-nil : (b : Bool) (message : String) → unless b message ≡ [] → b ≡ true
unfolding unless
unless-eq-nil b message h = ground arith

-- A call on the files that returned, whatever the files after it.
pub then_on_returned :
    {A B : Type 0} (m : Disk × Result A) (f : A → Disk → Disk × Result B) (b : B)
    → (then_on m f).1 ≡ ok b
    → (d : Disk) × (a : A) × (m ≡ (d, ok a)) × ((f a d).1 ≡ ok b)
then_on_returned (d, ok a) f b h = (d, a, refl, h)
then_on_returned (d, err e) f b h = cc

module _ (P : Platform) (L : FileLib) where
  -- The key of the anchor: the text of its file, or a new one if there is no such file.
  abbrev pub IsKey : Option String → String → Type 0
  IsKey none key = key ≡ L.new_key
  IsKey (some text) key = (L.is_hex (strip text) ≡ true) × (key ≡ strip text)

  -- The anchor of these events: their number and their last hash, with the HMAC of both.
  abbrev pub signed_head : String → List Fields → Fields
  signed_head key events =
      let code = L.hmac key (
        json_dumps (
          obj (
            dict (
              ("version", num (pos 1))
              ∷ ("event_count", num (pos (length events)))
              ∷ ("head_event_hash", latest_hash events)
              ∷ [])))) in
      dict (
        ("version", num (pos 1))
        ∷ ("event_count", num (pos (length events)))
        ∷ ("head_event_hash", latest_hash events)
        ∷ ("anchor_hmac", str ("sha256:" <> code))
        ∷ [])

  -- There is no anchor and no event, or the anchor's file reads as a value that equals the anchor of
  -- these events under the key.
  abbrev pub IsAnchored : Disk → List Fields → Type 0
  IsAnchored d events =
      ((d.anchor_text ≡ none) × (events ≡ []))
      ⊎ ((text : String) × (stored : Value) × (key : String) × (d.anchor_text ≡ some text)
          × (P.json_loads text ≡ some stored)
          × IsKey d.key_text key
          × (py_eq stored (obj (signed_head key events)) ≡ true))

  key_from-IsKey :
      (text : Option String) (d d' : Disk) (key : String)
      → key_from P L text d ≡ (d', ok key)
      → IsKey text key
  unfolding key_from
  key_from-IsKey none d d' key h = sym (ok-injective (ap (λ (x : Disk × Result String). x.1) h))
  key_from-IsKey (some text) d d' key h = elim (Bool-cases (L.is_hex (strip text))) [
    | inl hex ↦ (hex, sym (ok-injective (ap (λ (x : Disk × Result String). x.1) (rw hex at h))))
    | inr other ↦ cc (ap (λ (x : Disk × Result String). x.1) (rw other at h))
  ]

  IsKey-key_from :
      (text : Option String) (d : Disk) (key : String)
      → IsKey text key
      → (d' : Disk) × (key_from P L text d ≡ (d', ok key))
  unfolding key_from
  IsKey-key_from none d key h = (record d { key_text = some L.new_key }, rw h refl)
  IsKey-key_from (some text) d key (hex, same) = (d, rw (hex, same) refl)

  -- The record that the source compares the anchor with.
  anchor_record-signed :
      (d d' : Disk) (events : List Fields) (made : Fields)
      → anchor_record P L d events ≡ (d', ok made)
      → (key : String) × IsKey d.key_text key × (made ≡ signed_head key events)
  unfolding anchor_record anchor_key anchor_body put
  anchor_record-signed d d' events made h =
      let (mid, key, found, rest) =
        then_on_returned (anchor_key P L d) _ made (ap (λ (x : Disk × Result Fields). x.1) h) in
      (key, key_from-IsKey d.key_text d mid key found, sym (ok-injective rest))

  signed-anchor_record :
      (d : Disk) (events : List Fields) (key : String)
      → IsKey d.key_text key
      → (d' : Disk) × (anchor_record P L d events ≡ (d', ok (signed_head key events)))
  unfolding anchor_record anchor_key anchor_body put
  signed-anchor_record d events key h =
      let (d', found) = IsKey-key_from d.key_text d key h in (d', rw found refl)

  compare_anchor_iff :
      (d : Disk) (events : List Fields) (text : String) (loaded : Option Value)
      → ((compare_anchor P L d events text loaded).1 ≡ ok []) ↔ (
          (stored : Value) × (key : String) × (loaded ≡ some stored)
          × IsKey d.key_text key
          × (py_eq stored (obj (signed_head key events)) ≡ true))
  unfolding compare_anchor unless
  compare_anchor_iff d events text none = (λ h. cc, λ (stored, key, e, found, equal). cc)
  compare_anchor_iff d events text (some stored) = (
    λ h.
        let (d', made, built, fits) = then_on_returned (anchor_record P L d events) _ [] h in
        let (key, found, same) = anchor_record-signed d d' events made built in
        (stored, key, refl, found, rw same at (unless-eq-nil _ _ (ok-injective fits))),
    λ (other, key, e, found, equal).
        let (d', built) = signed-anchor_record d events key found in
        rw (built, some-injective _ _ e, equal) refl,
  )

  check_anchor_iff :
      (d : Disk) (events : List Fields) (file : Option String)
      → ((check_anchor P L d events file).1 ≡ ok []) ↔ (
          ((file ≡ none) × (events ≡ []))
          ⊎ ((text : String) × (stored : Value) × (key : String) × (file ≡ some text)
              × (P.json_loads text ≡ some stored)
              × IsKey d.key_text key
              × (py_eq stored (obj (signed_head key events)) ≡ true)))
  unfolding check_anchor unless
  check_anchor_iff d events none = (
    λ h. inl (refl, (is_empty_iff events).0 (unless-eq-nil _ _ (ok-injective h))),
    elim [
      | inl (missing, e) ↦ rw e refl
      | inr (text, stored, key, there, loaded, found, equal) ↦ cc
    ],
  )
  check_anchor_iff d events (some text) = (
    λ h.
        let (stored, key, loaded, found, equal) =
          (compare_anchor_iff d events text (P.json_loads text)).0 h in
        inr (text, stored, key, refl, loaded, found, equal),
    elim [
      | inl (missing, e) ↦ cc
      | inr (other, stored, key, there, loaded, found, equal) ↦
          (compare_anchor_iff d events text (P.json_loads text)).1
            (stored, key, ap P.json_loads (some-injective _ _ there) ∙ loaded, found, equal)
    ],
  )

  -- The check of the anchor finds no error exactly when the anchor fits the events.
  pub verify_audit_anchor_iff :
      (d : Disk) (events : List Fields)
      → ((verify_audit_anchor P L d events).1 ≡ ok []) ↔ IsAnchored d events
  unfolding verify_audit_anchor
  verify_audit_anchor_iff d events = check_anchor_iff d events d.anchor_text
