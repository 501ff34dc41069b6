-- ===== src/Persistence/Appended.antt =====
-- `append_audit_event` of JsonPersistence against `verify_audit_chain`.
use gui_shell_public.Prelude.{
  String, ◌≡◌, refl, ap, sym, ◌∙◌, true, false, not, List, [], ◌∷◌, ◌++◌, Option, none, some, arith,
  is_empty_iff, any_of, not-eq-true, ◌<>◌,
}
use gui_shell_public.Outcome.{Result, ok, err, guard, >>=-eq-ok, guard-eq-ok, ok-injective}
use gui_shell_public.Platform.{Platform}
use gui_shell_public.Value.{Value, null, obj, Fields, has, get, without, truthy}
use gui_shell_public.Value.Equal.{py_eq}
use gui_shell_public.Value.Laws.{dict_laws, without-put_other}
use gui_shell_public.Store.{Key, key_of}
use gui_shell_public.AuditChain.{Verification, start, body, chain_event, verify_audit_chain}
use gui_shell_public.AuditChain.Laws.{
  last_link, is_link, check_events-append, check_events_previous,
}
use gui_shell_public.AuditStore.{sealed}
use gui_shell_public.AuditStore.Chained.{
  check_sealed, check_events_one, not_seen, verified_check, verified_of_check,
}
use gui_shell_public.Persistence.{
  FileLib, Disk, then_on, latest_hash, audit_events, anchor_record, write_audit_anchor, next_event,
  key_from, anchor_key, with_line, append_audit_event,
}

latest_hash-last_link : (events : List Fields) → last_link null events ≡ latest_hash events
unfolding latest_hash last_link
latest_hash-last_link [] = refl
latest_hash-last_link (e ∷ []) = refl
latest_hash-last_link (e ∷ f ∷ events) = latest_hash-last_link (f ∷ events)

-- A call on the files that returned, taken apart.
pub then_on-eq-ok :
    {A B : Type 0} (m : Disk × Result A) (f : A → Disk → Disk × Result B) (d' : Disk) (b : B)
    → then_on m f ≡ (d', ok b)
    → (d : Disk) × (a : A) × (m ≡ (d, ok a)) × (f a d ≡ (d', ok b))
then_on-eq-ok (d, ok a) f d' b h = (d, a, refl, h)
then_on-eq-ok (d, err e) f d' b h = cc (ap (λ (x : Disk × Result _). x.1) h)

module _ (P : Platform) where
  -- `chain_event` drops a hash that the event carries; what is left is what the store seals.
  chain_event-sealed :
      (event : Fields) (previous : Value)
      → chain_event P event previous ≡ sealed P (without event "event_hash") previous
  unfolding chain_event body sealed
  chain_event-sealed event previous =
      rw (without-put_other event "previous_event_hash" "event_hash" previous refl)

  -- A chain that verifies goes on with the chained event.
  pub chain_event-verifies :
      (events : List Fields) (event : Fields) (v : Verification) (k : Key)
      → verify_audit_chain P events ≡ ok v
      → v.verified ≡ true
      → truthy (get event "event_id") ≡ true
      → key_of (get event "event_id") ≡ ok k
      → any_of (λ stored. py_eq (get stored "event_id") (get event "event_id")) events ≡ false
      → (w : Verification) × (verify_audit_chain P
            (events ++ (chain_event P event (latest_hash events) ∷ []))
          ≡ ok w)
        × (w.verified ≡ true)
  unfolding is_link
  chain_event-verifies events event v k checked good named hashed new =
      let (c, run, flag) = verified_check P events v checked in
      let clean = (is_empty_iff c.errors).0 (sym flag ∙ good) in
      let (at_last, linked) = check_events_previous P start c events run clean refl in
      let at_latest = at_last ∙ latest_hash-last_link events in
      let unseen = not_seen P c events (get event "event_id") k hashed run new in
      let stripped = without event "event_hash" in
      let unsealed : has stripped "event_hash" ≡ false = simp dict_laws in
      let own : get stripped "event_id" ≡ get event "event_id" = simp dict_laws in
      let (d, step, no_errors) =
        check_sealed P stripped (latest_hash events) unsealed c k at_latest (rw at_latest at linked)
          clean (rw own named) (rw own hashed) unseen in
      rw (chain_event-sealed event (latest_hash events)) (
        verified_of_check P (events ++ (sealed P stripped (latest_hash events) ∷ [])) d
          (check_events-append P start events _ ∙ rw run (check_events_one P c d _ step)) no_errors)

module _ (P : Platform) (L : FileLib) where
  -- What the checks in front of an append have found if they returned.
  next_event_parts :
      (d : Disk) (event chained : Fields) (events : List Fields)
      → next_event P L d event ≡ ok (events, chained)
      → (v : Verification) × (truthy (get event "event_id") ≡ true)
        × (audit_events P L d ≡ ok events)
        × (verify_audit_chain P events ≡ ok v)
        × (v.verified ≡ true)
        × (any_of (λ stored. py_eq (get stored "event_id") (get event "event_id")) events ≡ false)
        × (chained ≡ chain_event P event (latest_hash events))
  unfolding next_event
  next_event_parts d event chained events h =
      let (u, named, h1) = >>=-eq-ok (guard (truthy (get event "event_id")) _) _ h in
      let (found, read, h2) = >>=-eq-ok (audit_events P L d) _ h1 in
      let (v, checked, h3) = >>=-eq-ok (verify_audit_chain P found) _ h2 in
      let (u', good, h4) = >>=-eq-ok (guard v.verified _) _ h3 in
      let (u'', new, h5) = >>=-eq-ok (guard (not (any_of _ found)) _) _ h4 in
      let same = ok-injective h5 in
      let at_events : found ≡ events = ap (λ (x : List Fields × Fields). x.0) same in
      let at_chained = ap (λ (x : List Fields × Fields). x.1) same in
      (
        v,
        guard-eq-ok _ _ named,
        read ∙ ap ok at_events,
        rw (← at_events) checked,
        guard-eq-ok _ _ good,
        rw (← at_events) (not-eq-true _ (guard-eq-ok _ _ new)),
        sym at_chained ∙ ap (λ es. chain_event P event (latest_hash es)) at_events,
      )

  key_from-keeps_audit :
      (key : Option String) (d mid : Disk) (code : String)
      → key_from P L key d ≡ (mid, ok code)
      → mid.audit_text ≡ d.audit_text
  unfolding key_from
  key_from-keeps_audit none d mid code h = sym (ap (λ (x : Disk × Result String). x.0.audit_text) h)
  key_from-keeps_audit (some text) d mid code h = ground arith

  keeps_audit_text :
      (d mid : Disk) (events : List Fields) (anchor : Fields)
      → anchor_record P L d events ≡ (mid, ok anchor)
      → mid.audit_text ≡ d.audit_text
  unfolding anchor_record anchor_key
  keeps_audit_text d mid events anchor h =
      let (mid', code, made, same) = then_on-eq-ok (anchor_key P L d) _ mid anchor h in
      sym (ap (λ (x : Disk × Result Fields). x.0.audit_text) same)
      ∙ key_from-keeps_audit d.key_text d mid' code made

  written :
      (d d' : Disk) (events : List Fields) (u : Unit {0})
      → write_audit_anchor P L d events ≡ (d', ok u)
      → (anchor : Fields) × ((anchor_record P L d events).1 ≡ ok anchor)
        × (d'.audit_text ≡ d.audit_text)
        × (d'.anchor_text ≡ some (L.indented (obj anchor) <> "\n"))
  unfolding write_audit_anchor
  written d d' events u h =
      let (mid, anchor, made, same) = then_on-eq-ok (anchor_record P L d events) _ d' u h in
      let disk = ap (λ (x : Disk × Result (Unit {0})). x.0) same in
      (
        anchor,
        ap (λ (x : Disk × Result Fields). x.1) made,
        sym (ap (λ (x : Disk). x.audit_text) disk) ∙ keeps_audit_text d mid events anchor made,
        sym (ap (λ (x : Disk). x.anchor_text) disk),
      )

  -- If `append_audit_event` returns for an event whose id is hashable, the file was read as events
  -- that, with the returned one behind them, form a chain that verifies; the text of the file then ends
  -- with the returned event's line, and the anchor that is written is the one of that chain.
  pub append_audit_event-verifies :
      (d d' : Disk) (event chained : Fields) (k : Key)
      → key_of (get event "event_id") ≡ ok k
      → append_audit_event P L d event ≡ (d', ok chained)
      → (events : List Fields) × (anchor : Fields) × (w : Verification) × (audit_events P L d
          ≡ ok events)
        × (verify_audit_chain P (events ++ (chained ∷ [])) ≡ ok w)
        × (w.verified ≡ true)
        × (d'.audit_text ≡ (with_line P L d chained).audit_text)
        × ((anchor_record P L (with_line P L d chained) (events ++ (chained ∷ []))).1 ≡ ok anchor)
        × (d'.anchor_text ≡ some (L.indented (obj anchor) <> "\n"))
  unfolding append_audit_event
  append_audit_event-verifies d d' event chained k hashed done =
      let (mid, (events, next), prepared, rest) =
        then_on-eq-ok (d, next_event P L d event) _ d' chained done in
      let at_mid : d ≡ mid = ap (λ (x : Disk × Result (List Fields × Fields)). x.0) prepared in
      let found = ap (λ (x : Disk × Result (List Fields × Fields)). x.1) prepared in
      let (v, named, read, checked, good, new, link) = next_event_parts d event next events found in
      let (w, again, fine) =
        chain_event-verifies P events event v k checked good named hashed new in
      let (last, u, wrote, same) =
        then_on-eq-ok (write_audit_anchor P L (with_line P L mid next) (events ++ (next ∷ []))) _ d'
          chained rest in
      let (anchor, made, text, anchored) =
        written (with_line P L mid next) last (events ++ (next ∷ [])) u wrote in
      let at_last : last ≡ d' = ap (λ (x : Disk × Result Fields). x.0) same in
      let at_next : next ≡ chained = ok-injective (ap (λ (x : Disk × Result Fields). x.1) same) in
      (
        events,
        anchor,
        w,
        read,
        rw (← at_next, link) again,
        fine,
        rw (← at_last, ← at_next, at_mid) text,
        rw (← at_next, at_mid) made,
        rw (← at_last) anchored,
      )
