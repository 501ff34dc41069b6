-- ===== src/Normalization/Inbound.antt =====
-- packages/shell_core/normalization.py: `normalize_inbound_payload`, the quarantine of a payload.
use gui_shell_public.Prelude.{
  String, Bool, true, ◌&&◌, not, ℕ, List, is_empty, length, if◌then◌else◌,
}
use gui_shell_public.Value.{Value, Fields, obj}
use gui_shell_public.Platform.{Platform}
use gui_shell_public.Normalization.Strip.{normalize_payload, strip_authority_keys}
use gui_shell_public.Normalization.Findings.{
  KeyFinding, ValueFinding, CollisionFinding, authority_keys_in, authority_values_in,
  normalization_collisions_in,
}

-- The `audit_event` of the report.
pub record InboundAudit : Type 0 where
  pub event_type : String
  pub authority_key_count : ℕ
  pub authority_value_count : ℕ
  pub normalization_collision_count : ℕ
  pub raw_payload_preserved : Bool

pub record Inbound : Type 0 where
  pub raw_payload : Value
  pub normalized_payload : Value
  pub stripped_payload : Value
  pub quarantined : Bool
  pub authority_key_findings : List KeyFinding
  pub authority_value_findings : List ValueFinding
  pub normalization_collision_findings : List CollisionFinding
  pub audit_event : InboundAudit

module _ (P : Platform) where
  -- bool(authority_keys_in(value) or authority_values_in(strip_authority_keys(value))), the test of
  -- `_metadata_claims_authority` and of `metadata_attempts_authority`
  unfoldable pub attempts_authority : Value → Bool
  attempts_authority v = not (
      is_empty (authority_keys_in P v "")
      && is_empty (authority_values_in P (strip_authority_keys P v) ""))

  unfoldable pub normalize_inbound_payload : Fields → Inbound
  normalize_inbound_payload payload =
      let stripped = strip_authority_keys P (obj payload) in
      let key_findings = authority_keys_in P (obj payload) "" in
      let value_findings = authority_values_in P stripped "" in
      let collision_findings = normalization_collisions_in P (obj payload) "" in
      let quarantined =
        not (is_empty key_findings && is_empty value_findings && is_empty collision_findings) in
      record {
        raw_payload = obj payload;
        normalized_payload = normalize_payload P (obj payload);
        stripped_payload = stripped;
        quarantined = quarantined;
        authority_key_findings = key_findings;
        authority_value_findings = value_findings;
        normalization_collision_findings = collision_findings;
        audit_event = record {
          event_type = if quarantined then "normalization.quarantine" else "normalization.pass";
          authority_key_count = length key_findings;
          authority_value_count = length value_findings;
          normalization_collision_count = length collision_findings;
          raw_payload_preserved = true;
        };
      }
