-- ===== src/Persistence/Verified.antt =====
-- packages/shell_core/persistence.py: what the search for tampering accepts.
use gui_shell_public.Prelude.{
  String, ◌≡◌, refl, ap, ◌∙◌, ◌↔◌, Bool, true, false, not, List, [], is_empty, is_empty_iff,
  and-eq-true, arith,
}
use gui_shell_public.Outcome.{Result, ok, ok-injective}
use gui_shell_public.Platform.{Platform}
use gui_shell_public.Value.{null, Fields}
use gui_shell_public.AuditChain.{Verification, verify_audit_chain}
use gui_shell_public.AuditChain.Linked.{IsChain, verified_iff_IsChain}
use gui_shell_public.Persistence.{
  FileLib, Disk, AuditReport, audit_events_report, verify_audit_anchor, audit_report,
  verify_audit_file, detect_tamper,
}
use gui_shell_public.Persistence.Lines.{HoldsEvents, audit_events_report_iff}
use gui_shell_public.Persistence.Anchored.{IsAnchored, verify_audit_anchor_iff, then_on_returned}

negation : (b : Bool) → not b ≡ false → b ≡ true
negation b h = ground arith

module _ (P : Platform) (L : FileLib) (d : Disk) where
  -- The audit file holds a list of events that form a chain, and the anchor is theirs.
  abbrev pub IsIntact : Type 0
  IsIntact =
      (events : List Fields) × HoldsEvents P L d events
      × IsChain P [] null events
      × IsAnchored P L d events

  -- A report that says verified, taken apart.
  report_verified :
      (report : AuditReport)
      → (verify_audit_file P L d).1 ≡ ok report
      → report.verified ≡ true
      → IsIntact
  unfolding verify_audit_file audit_report
  report_verified report h good =
      let events = (audit_events_report P L d).0 in
      let (mid, v, chain, rest) = then_on_returned (d, verify_audit_chain P events) _ report h in
      let (last, anchor_errors, anchor, same) =
        then_on_returned (verify_audit_anchor P L mid events) _ report rest in
      let at_mid : d ≡ mid = ap (λ (x : Disk × Result Verification). x.0) chain in
      let checked = ap (λ (x : Disk × Result Verification). x.1) chain in
      let flag = ap (λ (x : AuditReport). x.verified) (ok-injective same) ∙ good in
      let (fine, both) = and-eq-true v.verified _ flag in
      let (lines, ends) = and-eq-true (is_empty (audit_events_report P L d).1) _ both in
      let clean = (is_empty_iff _).0 lines in
      (
        events,
        (audit_events_report_iff P L d events).0
            (ap (λ (errors : List String). (events, errors)) clean),
        (verified_iff_IsChain P events).0 (v, checked, fine),
        (verify_audit_anchor_iff P L d events).0 (
            ap (λ (x : Disk). (verify_audit_anchor P L x events).1) at_mid
            ∙ ap (λ (x : Disk × Result (List String)). x.1) anchor
            ∙ ap ok ((is_empty_iff anchor_errors).0 ends)),
      )

  -- An intact file is reported as verified.
  intact_report :
      IsIntact
      → (report : AuditReport) × ((verify_audit_file P L d).1 ≡ ok report)
        × (report.verified ≡ true)
  unfolding verify_audit_file audit_report
  intact_report (events, held, chain, anchored) =
      let read = (audit_events_report_iff P L d events).1 held in
      let (v, checked, fine) = (verified_iff_IsChain P events).1 chain in
      let fits = (verify_audit_anchor_iff P L d events).1 anchored in
      let whole : verify_audit_anchor P L d events ≡ ((verify_audit_anchor P L d events).0, ok []) =
        ap {B = Disk × Result (List String)} (λ r. ((verify_audit_anchor P L d events).0, r))
          fits in
      (audit_report P L v [] [], rw (read, checked, whole) refl, rw fine refl)

  -- The search for tampering returns False exactly when the lines of the audit file that are not
  -- blank are the JSON texts of events, each with a truthy and hashable id that no earlier event has,
  -- with the hash of its predecessor, which for the first is None, and with the hash of its own body,
  -- and when the anchor either is missing and there are no events, or reads as their number and last
  -- hash with the HMAC of both under a usable key.
  pub detect_tamper_iff : ((detect_tamper P L d).1 ≡ ok false) ↔ IsIntact
  unfolding detect_tamper
  detect_tamper_iff = (
    λ h.
        let (mid, report, made, same) = then_on_returned (verify_audit_file P L d) _ false h in
        report_verified report (ap (λ (x : Disk × Result AuditReport). x.1) made)
          (negation report.verified (ok-injective same)),
    λ intact.
        let (report, made, good) = intact_report intact in
        let whole : verify_audit_file P L d ≡ ((verify_audit_file P L d).0, ok report) =
          ap {B = Disk × Result AuditReport} (λ r. ((verify_audit_file P L d).0, r)) made in
        rw (whole, good) refl,
  )
