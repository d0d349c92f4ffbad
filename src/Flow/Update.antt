-- ===== src/Flow/Update.antt =====
-- Updating a flow: what a validated payload changes, and that the invariant is kept.
use mathlib.Core.Path.{subst}
use platform_backend.Prelude.{
  ℕ, String, ◌≡◌, refl, sym, ◌∙◌, ap, ◌≢◌, ◌⊎◌, inl, inr, arith, true, Option, none, some,
  string_eq, eq_iff, Option-cases, ne_of_beq, some_inj,
}
use platform_backend.Dict.{Dict, keys, get, put}
use platform_backend.Dict.Laws.{IsDistinct, get-put_self, get-put_ne}
use platform_backend.Core.Typehints.{Annotation}
use platform_backend.Core.Typehints.Laws.{admits_none}
use platform_backend.Core.ModelUtils.{Value, null, str, time}
use platform_backend.Core.ModelUtils.Laws.{IsModel, is_nullable, keep, get-partial_update_dict}
use platform_backend.Core.ModelUtils.Conforms.{
  ModelCopy, overlay, conforms, IsDumped, given_text, overlay-keep,
}
use platform_backend.UcApi.{str_type, datetime_type, or_none}
use platform_backend.FlowApi.{
  FlowResponse, FlowField, field_name, attr, flow_response_fields, flow_update_fields,
}
use platform_backend.Uc.{ok}
use platform_backend.Flow.{Store, update_flow, update_found, update_existing, updated_flow}
use platform_backend.Flow.Invariant.{IsFlowResponse}

flow_response-IsModel : IsModel flow_response_fields
flow_response-IsModel = (tt, (tt, (refl, (tt, (tt, (tt, tt))))))

flow_response-IsDistinct : IsDistinct (keys flow_response_fields)
unfolding keys
flow_response-IsDistinct = (refl, (refl, (refl, (refl, (refl, (refl, tt))))))

update_field :
    (key : String) (a : Annotation)
    → get key flow_update_fields ≡ some a
    → (a ≡ or_none str_type) × ((key ≡ "name") ⊎ (key ≡ "description") ⊎ (key ≡ "status"))
unfolding get
update_field key a h =
    ground (arith, eq_iff "name" key, eq_iff "description" key, eq_iff "status" key)

-- What an update writes to a field: a null clears `description`, and counts as omitted elsewhere.
abbrev pub given : FlowField → Option Value → Value → Value
given FlowField.description o old = overlay o old
given _ o old = given_text o old

overlay-keep-true : (o : Option Value) (old : Value) → overlay (keep true o) old ≡ overlay o old
overlay-keep-true none old = refl
overlay-keep-true (some null) old = refl
overlay-keep-true (some (str s)) old = refl
overlay-keep-true (some (time t)) old = refl

overlay-given :
    (f : FlowField) (o : Option Value) (old : Value)
    → overlay (keep (is_nullable (field_name f) flow_response_fields) o) old ≡ given f o old
unfolding is_nullable admits_none get
overlay-given FlowField.description o old = overlay-keep-true o old
overlay-given f o old = overlay-keep o old

text_kept :
    (v old : Value)
    → conforms (or_none str_type) v ≡ true
    → conforms str_type old ≡ true
    → conforms str_type (given_text (some v) old) ≡ true
unfolding conforms
text_kept null old c h = h
text_kept (str s) old c h = refl
text_kept (time t) old c h = cc

module _ (dumped : Dict String Value) (valid : IsDumped flow_update_fields dumped) where
  not_named :
      (key : String) → key ≢ "name" → key ≢ "description" → key ≢ "status" → get key dumped ≡ none
  not_named key h i j = elim (Option-cases (get key dumped)) [
    | inl missing ↦ missing
    | inr (v, set) ↦
        let (a, declared, fits) = valid.fits key v set in
        elim (update_field key a declared).1 [
          | inl p ↦ absurd (h p)
          | inr (inl p) ↦ absurd (i p)
          | inr (inr p) ↦ absurd (j p)
        ]
  ]

  given_or_none :
      (key : String) (v : Value) → get key dumped ≡ some v → conforms (or_none str_type) v ≡ true
  given_or_none key v set =
      let (a, declared, fits) = valid.fits key v set in
      subst (λ t. conforms t v ≡ true) (update_field key a declared).0 fits

  conforms-given_text :
      (key : String) (old : Value)
      → conforms str_type old ≡ true
      → conforms str_type (given_text (get key dumped) old) ≡ true
  conforms-given_text key old h = elim (Option-cases (get key dumped)) [
    | inl missing ↦ rw missing h
    | inr (v, set) ↦ rw set (text_kept v old (given_or_none key v set) h)
  ]

  conforms-overlay :
      (key : String) (old : Value)
      → conforms (or_none str_type) old ≡ true
      → conforms (or_none str_type) (overlay (get key dumped) old) ≡ true
  conforms-overlay key old h = elim (Option-cases (get key dumped)) [
    | inl missing ↦ rw missing h
    | inr (v, set) ↦ rw set (given_or_none key v set)
  ]

-- The value of a field that a well-typed flow holds, under the annotation of that field.
at_type :
    (f : FlowField) (flow : FlowResponse) {t : Annotation}
    → IsFlowResponse flow
    → get (field_name f) flow_response_fields ≡ some t
    → conforms t (attr f flow) ≡ true
at_type f flow h declared =
    let (a, also, fits) = h f in
    subst (λ t. conforms t (attr f flow) ≡ true) (some_inj (sym also ∙ declared)) fits

module _ (pydantic : ModelCopy FlowResponse FlowField field_name attr) where
  -- On a stored flow the route always stores a copy; this is what each field of the copy holds.
  pub update_flow-stored :
      (flow_id : String) (dumped : Dict String Value) (now : ℕ) (s : Store)
      (existing : FlowResponse)
      → IsDumped flow_update_fields dumped
      → get flow_id s ≡ some existing
      → (updated : FlowResponse) × (update_flow pydantic flow_id dumped now s
          ≡ (ok updated, put flow_id updated s))
        × (updated.updated_at ≡ time now)
        × ((f : FlowField)
            → field_name f ≢ "updated_at"
            → attr f updated ≡ given f (get (field_name f) dumped) (attr f existing))
  unfolding update_flow
  update_flow-stored flow_id dumped now s existing valid stored =
      let (update, computed, same) =
        get-partial_update_dict dumped flow_response_fields valid.distinct flow_response-IsModel
          flow_response-IsDistinct in
      (
        updated_flow pydantic existing update now,
        rw (stored, update_found, computed, update_existing) refl,
        pydantic.attr-model_copy existing _ FlowField.updated_at
            ∙ ap (λ o. overlay o existing.updated_at) (get-put_self "updated_at" (time now) update),
        λ f ne.
            pydantic.attr-model_copy existing _ f
            ∙ ap (λ o. overlay o (attr f existing))
                (get-put_ne (time now) update (λ p. ne (sym p)) ∙ same (field_name f))
            ∙ overlay-given f (get (field_name f) dumped) (attr f existing),
      )

module _ (dumped : Dict String Value) (now : ℕ) (existing updated : FlowResponse)
    (valid : IsDumped flow_update_fields dumped) (h : IsFlowResponse existing)
    (stamp : updated.updated_at ≡ time now)
    (fields : (f : FlowField)
      → field_name f ≢ "updated_at"
      → attr f updated ≡ given f (get (field_name f) dumped) (attr f existing)) where
  pub id_kept : updated.id ≡ existing.id
  id_kept =
      fields FlowField.id (ne_of_beq _ _ refl)
      ∙ ap (λ o. given_text o existing.id)
          (not_named dumped valid "id" (ne_of_beq _ _ refl) (ne_of_beq _ _ refl)
            (ne_of_beq _ _ refl))

  created_at_kept : updated.created_at ≡ existing.created_at
  created_at_kept =
      fields FlowField.created_at (ne_of_beq _ _ refl)
      ∙ ap (λ o. given_text o existing.created_at)
          (not_named dumped valid "created_at" (ne_of_beq _ _ refl) (ne_of_beq _ _ refl)
            (ne_of_beq _ _ refl))

  pub updated-IsFlowResponse : IsFlowResponse updated
  unfolding get
  updated-IsFlowResponse FlowField.id =
      (str_type, refl, rw id_kept (at_type FlowField.id existing h refl))
  updated-IsFlowResponse FlowField.name = (
    str_type,
    refl,
    rw (fields FlowField.name (ne_of_beq _ _ refl)) (
        conforms-given_text dumped valid "name" existing.name
          (at_type FlowField.name existing h refl)),
  )
  updated-IsFlowResponse FlowField.description = (
    or_none str_type,
    refl,
    rw (fields FlowField.description (ne_of_beq _ _ refl)) (
        conforms-overlay dumped valid "description" existing.description
          (at_type FlowField.description existing h refl)),
  )
  updated-IsFlowResponse FlowField.status = (
    str_type,
    refl,
    rw (fields FlowField.status (ne_of_beq _ _ refl)) (
        conforms-given_text dumped valid "status" existing.status
          (at_type FlowField.status existing h refl)),
  )
  updated-IsFlowResponse FlowField.created_at =
      (datetime_type, refl, rw created_at_kept (at_type FlowField.created_at existing h refl))
  updated-IsFlowResponse FlowField.updated_at = (datetime_type, refl, rw stamp stamped)
    where
      stamped : conforms datetime_type (time now) ≡ true
      stamped = unfold conforms in refl
