-- ===== src/ApprovalQueue/Edits.antt =====
-- packages/shell_core/approval_queue.py: what an edit of a waiting approval does, and to which
-- fields.
use gui_shell_public.Prelude.{
  String, ◌≡◌, ◌≢◌, refl, ap, sym, ◌∙◌, true, false, ◌||◌, List, [], ◌∷◌, ◌++◌, Option, none, some,
  inl, inr, arith, any_of, Bool-cases, eq_iff, not-eq-true, or-eq-false,
}
use gui_shell_public.Outcome.{ok, guard, guard-eq-ok, >>=-eq-ok, ok-injective}
use gui_shell_public.Platform.{Platform}
use gui_shell_public.Value.{Value, null, str, arr, obj, nil, Fields, end, get, get_or, put}
use gui_shell_public.Value.Laws.{dict_laws}
use gui_shell_public.Store.{Key, text_key, Table, find, set}
use gui_shell_public.Store.Laws.{find-set, find-set_self, key_eqb_iff}
use gui_shell_public.Hash.{canonical_hash}
use gui_shell_public.ApprovalQueue.{
  set_of, member, protected_edit_fields, protected_fields, found, get_approval, can_edit, put_in,
  edited, edit,
}

found-eq-ok :
    (message : String) (o : Option Fields) {r : Fields} → found message o ≡ ok r → o ≡ some r
unfolding found
found-eq-ok message none h = cc
found-eq-ok message (some r) h = ap some (ok-injective h)

get_approval-eq-ok :
    (queue : Table) (approval_id : String) {r : Fields}
    → get_approval queue approval_id ≡ ok r
    → find queue (text_key approval_id) ≡ some r
unfolding get_approval
get_approval-eq-ok queue approval_id h = found-eq-ok _ (find queue (text_key approval_id)) h

member-append : (xs ys : List Key) (s : String) → member (xs ++ ys) s ≡ (member xs s || member ys s)
unfolding member any_of
member-append [] ys s = refl
member-append (x ∷ xs) ys s = ground (arith, member-append xs ys s)

put_in-eq-ok :
    (v : Value) (name : String) (w v' : Value)
    → put_in v name w ≡ ok v'
    → (d : Fields) × (v ≡ obj d) × (v' ≡ obj (put d name w))
unfolding put_in
put_in-eq-ok (obj d) name w v' h = (d, refl, sym (ok-injective h))
put_in-eq-ok null name w v' h = cc
put_in-eq-ok _ name w v' h = cc

-- An editable field is listed as editable, and protected neither by the approval nor by the queue.
can_edit-eq-true :
    (queue : Table) (approval_id name : String)
    → can_edit queue approval_id name ≡ ok true
    → (approval : Fields) × (editable : List Key) × (protected : List Key) × (find queue
          (text_key approval_id)
        ≡ some approval)
      × (set_of (get_or approval "editable_fields" (arr nil)) ≡ ok editable)
      × (member editable name ≡ true)
      × (protected_fields approval ≡ ok protected)
      × (member protected name ≡ false)
unfolding can_edit
can_edit-eq-true queue approval_id name h =
    let (approval, e, h1) = >>=-eq-ok (get_approval queue approval_id) _ h in
    let (editable, listed, h2) =
      >>=-eq-ok (set_of (get_or approval "editable_fields" (arr nil))) _ h1 in
    elim (Bool-cases (member editable name)) [
      | inr missing ↦ cc (rw missing at h2)
      | inl there ↦
          let (protected, p, h3) = >>=-eq-ok (protected_fields approval) _ (rw there at h2) in
          (
            approval,
            editable,
            protected,
            get_approval-eq-ok queue approval_id e,
            listed,
            there,
            p,
            not-eq-true _ (ok-injective h3),
          )
    ]

protected_fields-own :
    (approval : Fields) (protected : List Key) (name : String)
    → protected_fields approval ≡ ok protected
    → member protected name ≡ false
    → member protected_edit_fields name ≡ false
unfolding protected_fields
protected_fields-own approval protected name h free =
    let (a, _, h1) = >>=-eq-ok (set_of (get_or approval "authority_fields" (arr nil))) _ h in
    let (b, _, h2) = >>=-eq-ok (set_of (get_or approval "sealed_fields" (arr nil))) _ h1 in
    let (c, _, h3) = >>=-eq-ok (set_of (get_or approval "hidden_fields" (arr nil))) _ h2 in
    let (d, _, h4) = >>=-eq-ok (set_of (get_or approval "sacred_fields" (arr nil))) _ h3 in
    let all_free = rw (← ok-injective h4) at free in
    let rest = or-eq-false (member a name) _ (rw member-append at all_free) in
    let rest₂ = or-eq-false (member b name) _ (rw member-append at rest.1) in
    let rest₃ = or-eq-false (member c name) _ (rw member-append at rest₂.1) in
    (or-eq-false (member d name) _ (rw member-append at rest₃.1)).1

module _ (P : Platform) (queue queue' : Table) (approval_id name : String) (value : Value)
    {approval : Fields} (done : edit P queue approval_id name value ≡ ok (queue', approval)) where
  edit_parts :
      (old payload : Fields) × (can_edit queue approval_id name ≡ ok true)
      × (find queue (text_key approval_id) ≡ some old)
      × (get_or old "full_payload" (obj end) ≡ obj payload)
      × (approval ≡ edited P old (obj (put payload name value)))
      × (queue' ≡ set queue (text_key approval_id) (edited P old (obj (put payload name value))))
  unfolding edit
  edit_parts =
      let (allowed, c, h1) = >>=-eq-ok (can_edit queue approval_id name) _ done in
      let (u, g, h2) = >>=-eq-ok (guard allowed _) _ h1 in
      let (old, found_old, h3) = >>=-eq-ok (get_approval queue approval_id) _ h2 in
      let (v, put_value, h4) =
        >>=-eq-ok (put_in (get_or old "full_payload" (obj end)) name value) _ h3 in
      let (payload, before, after) = put_in-eq-ok _ name value v put_value in
      let same = ok-injective h4 in
      (
        old,
        payload,
        rw (guard-eq-ok allowed _ g) at c,
        get_approval-eq-ok queue approval_id found_old,
        before,
        sym (ap (λ (x : Table × Fields). x.1) same) ∙ ap (edited P old) after,
        sym (ap (λ (x : Table × Fields). x.0) same)
            ∙ ap (λ (x : Value). set queue (text_key approval_id) (edited P old x)) after,
      )

  -- If `edit` returns, it has stored the approval that it returns, with status `requires_validation`
  -- and a payload hash that is that of its own full payload, which holds the new value.
  pub edit_revalidates :
      (payload : Fields) × (find queue' (text_key approval_id) ≡ some approval)
      × (get approval "status" ≡ str "requires_validation")
      × (get approval "full_payload" ≡ obj payload)
      × (get payload name ≡ value)
      × (get approval "payload_hash" ≡ str (canonical_hash P (obj payload)))
  unfolding edited
  edit_revalidates =
      let (old, payload, _, _, _, same, stored) = edit_parts in
      (
        put payload name value,
        rw (stored, same, find-set_self),
        rw same (simp dict_laws),
        rw same (simp dict_laws),
        simp dict_laws,
        rw same (simp dict_laws),
      )

  -- If `edit` returns, every other approval is as it was, and so is each field of the edited one
  -- other than its payload, its hash and its status.
  pub edit_keeps_rest :
      (old : Fields) × (find queue (text_key approval_id) ≡ some old)
      × ((k : Key) → k ≢ text_key approval_id → find queue' k ≡ find queue k)
      × ((j : String)
          → j ≢ "full_payload"
          → j ≢ "payload_hash"
          → j ≢ "status"
          → get approval j ≡ get old j)
  unfolding edited
  edit_keeps_rest =
      let (old, payload, _, there, _, same, stored) = edit_parts in
      (
        old,
        there,
        λ k other. rw (stored, find-set) (ground (arith, key_eqb_iff (text_key approval_id) k)),
        λ j p q r. rw same (
            simp dict_laws (
              ground (arith, eq_iff "full_payload" j, eq_iff "payload_hash" j, eq_iff "status" j))),
      )

  -- If `edit` returns, the field is listed as editable by the approval, is none of the queue's own
  -- protected fields, and is not protected by the approval's own lists.
  pub edit_only_editable :
      (old : Fields) × (editable : List Key) × (protected : List Key) × (find queue
          (text_key approval_id)
        ≡ some old)
      × (set_of (get_or old "editable_fields" (arr nil)) ≡ ok editable)
      × (member editable name ≡ true)
      × (protected_fields old ≡ ok protected)
      × (member protected name ≡ false)
      × (member protected_edit_fields name ≡ false)
  edit_only_editable =
      let (old, payload, allowed, _, _, _, _) = edit_parts in
      let (a, editable, protected, there, listed, e, p, free) =
        can_edit-eq-true queue approval_id name allowed in
      (
        a,
        editable,
        protected,
        there,
        listed,
        e,
        p,
        free,
        protected_fields-own a protected name p free,
      )
