-- ===== src/Flow/Invariant.antt =====
-- The invariant of the flow store.
use platform_backend.Prelude.{String, ◌≡◌, inl, inr, some, string_eq}
use platform_backend.Dict.{keys, get, put, pop}
use platform_backend.Dict.Laws.{
  IsDistinct, get-put_cases, get-pop_cases, IsDistinct-put, IsDistinct-pop,
}
use platform_backend.Core.ModelUtils.{str}
use platform_backend.Core.ModelUtils.Conforms.{IsInstance}
use platform_backend.FlowApi.{FlowResponse, field_name, attr, flow_response_fields}
use platform_backend.Flow.{Store}

abbrev pub IsFlowResponse : FlowResponse → Type 0
IsFlowResponse = IsInstance flow_response_fields field_name attr

-- A flow is stored under its own id and typed as the contract says.
pub record IsStored (id : String) (flow : FlowResponse) : Type 0 where
  pub own_id : flow.id ≡ str id
  pub typed : IsFlowResponse flow

pub record IsConsistent (s : Store) : Type 0 where
  pub distinct : IsDistinct (keys s)
  pub stored : (id : String) (flow : FlowResponse) → get id s ≡ some flow → IsStored id flow

pub put-IsConsistent :
    (s : Store) (id : String) (flow : FlowResponse)
    → IsConsistent s
    → IsStored id flow
    → IsConsistent (put id flow s)
put-IsConsistent s id flow h new = record {
  distinct = IsDistinct-put id flow s h.distinct;
  stored = λ j w e. elim (get-put_cases id j flow s e) [
    | inl (same, here) ↦ rw (← same, ← here) new
    | inr (other, old) ↦ h.stored j w old
  ];
}

pub pop-IsConsistent : (s : Store) (id : String) → IsConsistent s → IsConsistent (pop id s)
pop-IsConsistent s id h = record {
  distinct = IsDistinct-pop id s h.distinct;
  stored = λ j w e. h.stored j w (get-pop_cases id j s e).1;
}
