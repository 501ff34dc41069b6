-- ===== src/Persistence/Anchor.antt =====
-- packages/shell_core/persistence.py: the anchor of one chain compared with another.
use gui_shell_public.Prelude.{
  String, ◌≡◌, ◌≢◌, ap, sym, ◌∙◌, Bool, true, ◌&&◌, ◌==◌, eq_iff, ℕ, List, [], some, arith, length,
  and-eq-true, Bool-cases, inl, inr,
}
use gui_shell_public.Prelude.Int.{pos, int_eqb_iff}
use gui_shell_public.Outcome.{Result, ok, ok-injective}
use gui_shell_public.Platform.{Platform}
use gui_shell_public.Value.{Value, null, num, str, obj, Fields, end, field, has, get}
use gui_shell_public.Value.Equal.{py_eq, fields_within}
use gui_shell_public.Value.Laws.{dict_laws, get_of_absent}
use gui_shell_public.AuditChain.{unless}
use gui_shell_public.Persistence.{
  FileLib, Disk, latest_hash, anchor_body, anchor_record, compare_anchor, check_anchor,
  verify_audit_anchor, anchor_key,
}
use gui_shell_public.Persistence.Appended.{then_on-eq-ok}

-- Equal dicts have equal values under each key of the first.
py_eq-get :
    (d e : Fields) (k : String)
    → fields_within d e ≡ true
    → has d k ≡ true
    → py_eq (get d k) (get e k) ≡ true
unfolding py_eq has get
py_eq-get end e k h there = cc
py_eq-get (field j v d) e k h there =
    let (first, rest) = and-eq-true (has e j && py_eq v (get e j)) _ h in
    let (_, same) = and-eq-true (has e j) _ first in
    elim (Bool-cases (j == k)) [
      | inl at ↦ rw at (rw (← (eq_iff j k).0 at) same)
      | inr other ↦ rw other (py_eq-get d e k rest (rw other at there))
    ]

present : (d : Fields) (k : String) (v : Value) → get d k ≡ v → v ≢ null → has d k ≡ true
present d k v h something = elim (Bool-cases (has d k)) [
  | inl there ↦ there
  | inr absent ↦ elim (something (sym h ∙ get_of_absent d k absent)) [ ]
]

py_eq-num : (a b : ℕ) → py_eq (num (pos a)) (num (pos b)) ≡ true → a ≡ b
unfolding py_eq
py_eq-num a b h = cc ((int_eqb_iff (pos a) (pos b)).0 h)

py_eq-str_left : (s : String) (v : Value) → py_eq (str s) v ≡ true → v ≡ str s
unfolding py_eq
py_eq-str_left s (str t) h = ap str (sym ((eq_iff s t).0 h))
py_eq-str_left s _ h = cc

module _ (P : Platform) (L : FileLib) where
  anchor_values :
      (d d' : Disk) (events : List Fields) (anchor : Fields)
      → anchor_record P L d events ≡ (d', ok anchor)
      → (get anchor "event_count" ≡ num (pos (length events)))
        × (get anchor "head_event_hash" ≡ latest_hash events)
  unfolding anchor_record anchor_body get
  anchor_values d d' events anchor h =
      let (mid, key, made, same) = then_on-eq-ok (anchor_key P L d) _ d' anchor h in
      let built = ok-injective (ap (λ (x : Disk × Result Fields). x.1) same) in
      (rw (← built) (simp dict_laws), rw (← built) (simp dict_laws))

  unless_none : (b : Bool) (message : String) → unless b message ≡ [] → b ≡ true
  unfolding unless
  unless_none b message h = ground arith

  within_of : (d e : Fields) → py_eq (obj d) (obj e) ≡ true → fields_within d e ≡ true
  unfolding py_eq
  within_of d e h = (and-eq-true _ (fields_within d e) h).1

  -- If the anchor's file reads as a dict with the count and the head hash of one chain, and the anchor
  -- fits the events of the file, then there are as many events as that chain has, and their last hash
  -- is the chain's if that is a text.
  pub anchor_pins_chain :
      (d d' : Disk) (chain events : List Fields) (text : String) (stored : Fields)
      → d.anchor_text ≡ some text
      → P.json_loads text ≡ some (obj stored)
      → get stored "event_count" ≡ num (pos (length chain))
      → get stored "head_event_hash" ≡ latest_hash chain
      → verify_audit_anchor P L d events ≡ (d', ok [])
      → (length events ≡ length chain)
        × ((head : String) → latest_hash chain ≡ str head → latest_hash events ≡ str head)
  unfolding verify_audit_anchor check_anchor compare_anchor
  anchor_pins_chain d d' chain events text stored there read count head fits =
      let (mid, expected, made, same) = then_on-eq-ok (anchor_record P L d events) _ d' [] (
        sym (ap (compare_anchor P L d events text) read)
        ∙ sym (ap (check_anchor P L d events) there)
        ∙ fits) in
      let equal =
        unless_none _ _ (ok-injective (ap (λ (x : Disk × Result (List String)). x.1) same)) in
      let within = within_of stored expected equal in
      let (own_count, own_head) = anchor_values d mid events expected made in
      (
        sym (
            py_eq-num _ _ (
              rw (count, own_count) at
                (py_eq-get stored expected "event_count" within
                  (present stored "event_count" _ count λ h. cc)))),
        λ text_of_head last. py_eq-str_left text_of_head (latest_hash events) (
            rw (head, last, own_head) at
              (py_eq-get stored expected "head_event_hash" within
                (present stored "head_event_hash" _ (head ∙ last) λ h. cc))),
      )
