-- ===== src/Flow/Behaviour.antt =====
-- What the flow routes promise, and that the flow store stays consistent.
use mathlib.Core.List.{Memᴰ}
use platform_backend.Prelude.{
  List, ℕ, ◌↔◌, arith, true, String, ◌≡◌, refl, ◌∙◌, ap, ◌≢◌, inl, inr, Option, none, some,
  string_eq, Option-cases, [],
}
use platform_backend.Dict.{Dict, keys, get, values}
use platform_backend.Dict.Listing.{listed_iff}
use platform_backend.Dict.Laws.{get-put_self, get-put_ne}
use platform_backend.Core.ModelUtils.{Value, time}
use platform_backend.Core.ModelUtils.Conforms.{ModelCopy, IsDumped, conforms}
use platform_backend.UcApi.{str_type, datetime_type, or_none}
use platform_backend.FlowApi.{
  FlowResponse, FlowField, FlowCreate, field_name, attr, flow_update_fields,
}
use platform_backend.Uc.{ok}
use platform_backend.Flow.{
  Store, optional_str, found, get_flow, list_flows, create_flow, update_flow, update_found,
  delete_flow, delete_found, new_flow, flow_id_of,
}
use platform_backend.Flow.Invariant.{
  IsConsistent, IsFlowResponse, put-IsConsistent, pop-IsConsistent,
}
use platform_backend.Flow.Update.{given, update_flow-stored, id_kept, updated-IsFlowResponse}

pub get_flow_iff :
    (id : String) (flow : FlowResponse) (s : Store)
    → (get_flow id s ≡ ok flow) ↔ (get id s ≡ some flow)
unfolding get_flow
get_flow_iff id flow s = (λ h. ground arith, λ h. rw (h, found))

get_flow_of_same : (id : String) (s t : Store) → get id t ≡ get id s → get_flow id t ≡ get_flow id s
unfolding get_flow
get_flow_of_same id s t e = ap found e

conforms-optional_str : (o : Option String) → conforms (or_none str_type) (optional_str o) ≡ true
unfolding conforms
conforms-optional_str none = refl
conforms-optional_str (some s) = refl

pub new_flow-IsFlowResponse :
    (p : FlowCreate) (now : ℕ) (uuid : String) → IsFlowResponse (new_flow p now uuid)
unfolding get conforms
new_flow-IsFlowResponse p now uuid FlowField.description =
    (or_none str_type, refl, conforms-optional_str p.description)
new_flow-IsFlowResponse p now uuid FlowField.created_at = (datetime_type, refl, refl)
new_flow-IsFlowResponse p now uuid FlowField.updated_at = (datetime_type, refl, refl)
new_flow-IsFlowResponse p now uuid FlowField.id = (str_type, refl, refl)
new_flow-IsFlowResponse p now uuid FlowField.name = (str_type, refl, refl)
new_flow-IsFlowResponse p now uuid FlowField.status = (str_type, refl, refl)

module _ (pydantic : ModelCopy FlowResponse FlowField field_name attr) where
  -- A request that writes to the flow store; pydantic has validated an update's payload.
  pub data Step (s t : Store) : Type 0 where
    creates :
        (payload : FlowCreate) (now : ℕ) (uuid : String)
        → t ≡ (create_flow payload now uuid s).1
        → Step s t
    updates :
        (flow_id : String) (dumped : Dict String Value) (now : ℕ)
        → IsDumped flow_update_fields dumped
        → t ≡ (update_flow pydantic flow_id dumped now s).1
        → Step s t
    deletes : (flow_id : String) → t ≡ (delete_flow flow_id s).1 → Step s t

  pub data Reach (s : Store) : Store → Type 0 where
    here : Reach s s
    next : {t u : Store} → Reach s t → Step t u → Reach s u

  pub update_flow-IsConsistent :
      (flow_id : String) (dumped : Dict String Value) (now : ℕ) (s : Store)
      → IsDumped flow_update_fields dumped
      → IsConsistent s
      → IsConsistent (update_flow pydantic flow_id dumped now s).1
  update_flow-IsConsistent flow_id dumped now s valid h = elim (Option-cases (get flow_id s)) [
    | inl missing ↦ unfold update_flow in rw (missing, update_found) h
    | inr (existing, stored) ↦
        let (updated, stores, stamp, fields) =
          update_flow-stored pydantic flow_id dumped now s existing valid stored in
        let old = h.stored flow_id existing stored in
        rw stores (
          put-IsConsistent s flow_id updated h (record {
            own_id = id_kept dumped now existing updated valid old.typed stamp fields ∙ old.own_id;
            typed = updated-IsFlowResponse dumped now existing updated valid old.typed stamp fields;
          }))
  ]

  pub Step-IsConsistent : {s t : Store} → Step s t → IsConsistent s → IsConsistent t
  unfolding create_flow delete_flow
  Step-IsConsistent {s} (creates payload now uuid e) h = rw e (
      put-IsConsistent s (flow_id_of uuid) (new_flow payload now uuid) h
        (record { own_id = refl; typed = new_flow-IsFlowResponse payload now uuid }))
  Step-IsConsistent {s} (updates flow_id dumped now valid e) h =
      rw e (update_flow-IsConsistent flow_id dumped now s valid h)
  Step-IsConsistent {s} (deletes flow_id e) h = elim (Option-cases (get flow_id s)) [
    | inl missing ↦ rw (e, missing, delete_found) h
    | inr (flow, stored) ↦ rw (e, stored, delete_found) (pop-IsConsistent s flow_id h)
  ]

  Reach-keeps : {s t : Store} → Reach s t → IsConsistent s → IsConsistent t
  Reach-keeps here h = h
  Reach-keeps (next r step) h = Step-IsConsistent step (Reach-keeps r h)

  -- Whatever requests run, in whatever order, from the empty store they reach one where each flow is
  -- stored under its own id, no id is listed twice, and every field is typed as the contract says.
  pub Reach-IsConsistent_of_flows : (s : Store) → Reach [] s → IsConsistent s
  Reach-IsConsistent_of_flows s r =
      Reach-keeps r
        (record { distinct = unfold keys in tt; stored = λ id flow e. unfold get in cc })

  -- Updating a stored flow with a validated payload succeeds, and the flow that it returns is the
  -- one that the id finds then. Its `updated_at` is the time of the update; a null clears the
  -- description and leaves every other field as it was; a value replaces the old one; a field that
  -- the payload does not set stays. Every other id finds what it found before.
  pub update_flow-updates :
      (flow_id : String) (dumped : Dict String Value) (now : ℕ) (s : Store)
      (existing : FlowResponse)
      → IsDumped flow_update_fields dumped
      → get_flow flow_id s ≡ ok existing
      → (updated : FlowResponse) × ((update_flow pydantic flow_id dumped now s).0 ≡ ok updated)
        × (get_flow flow_id (update_flow pydantic flow_id dumped now s).1 ≡ ok updated)
        × (updated.updated_at ≡ time now)
        × ((f : FlowField)
            → field_name f ≢ "updated_at"
            → attr f updated ≡ given f (get (field_name f) dumped) (attr f existing))
        × ((id : String)
            → flow_id ≢ id
            → get_flow id (update_flow pydantic flow_id dumped now s).1 ≡ get_flow id s)
  update_flow-updates flow_id dumped now s existing valid returned =
      let (updated, stores, stamp, fields) =
        update_flow-stored pydantic flow_id dumped now s existing valid
          ((get_flow_iff flow_id existing s).0 returned) in
      (
        updated,
        ap (λ r. r.0) stores,
        rw stores ((get_flow_iff flow_id updated _).1 (get-put_self flow_id updated s)),
        stamp,
        fields,
        λ id other. rw stores (get_flow_of_same id s _ (get-put_ne updated s other)),
      )

-- In a consistent store the listing succeeds, and lists exactly the flows that a lookup by some id
-- returns.
pub list_flows-lists :
    (s : Store)
    → IsConsistent s
    → (flows : List FlowResponse) × (list_flows s ≡ ok flows)
      × ((flow : FlowResponse) → Memᴰ flow flows ↔ ((id : String) × (get_flow id s ≡ ok flow)))
unfolding list_flows
list_flows-lists s h = (
  values s,
  refl,
  λ flow. (
    λ m.
        let (id, stored) = (listed_iff s flow h.distinct).0 m in
        (id, (get_flow_iff id flow s).1 stored),
    λ (id, returned). (listed_iff s flow h.distinct).1 (id, (get_flow_iff id flow s).0 returned),
  ),
)
