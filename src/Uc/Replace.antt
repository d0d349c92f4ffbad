-- ===== src/Uc/Replace.antt =====
-- Storing another value for a user keeps the store consistent: in place, or under a new name.
use mathlib.Core.Path.{subst}
use platform_backend.Prelude.{
  String, ◌≡◌, sym, ◌∙◌, ap, ◌≢◌, inl, inr, arith, false, Option, none, some, ◌==◌, string_eq,
  eq_iff, Bool-cases, ne_of_beq,
}
use platform_backend.Dict.{get, put, pop}
use platform_backend.Dict.Laws.{
  get-put_self, get-put_ne, get-put_cases, get-pop_ne, get-pop_cases, IsDistinct-put,
}
use platform_backend.Core.ModelUtils.{Value, str, value_eq}
use platform_backend.UcApi.{UserResponse}
use platform_backend.Uc.{Store, is_taken}
use platform_backend.Uc.Invariant.{IsConsistent, IsUserResponse}

owner_of_free : (o : Option String) (id j : String) → is_taken o id ≡ false → o ≡ some j → j ≡ id
unfolding is_taken
owner_of_free none id j free e = cc
owner_of_free (some k) id j free e = ground (arith, eq_iff k id)

module _ (s : Store) (id : String) (existing updated : UserResponse) (h : IsConsistent s)
    (stored : get id s.users ≡ some existing) (own : updated.id ≡ str id)
    (fits : IsUserResponse updated) where
  own_id-put :
      (j : String) (w : UserResponse) → get j (put id updated s.users) ≡ some w → w.id ≡ str j
  own_id-put j w e = elim (get-put_cases id j updated s.users e) [
    | inl (same, here) ↦ rw (← here, ← same) own
    | inr (other, old) ↦ h.own_id j w old
  ]

  typed-put :
      (j : String) (w : UserResponse) → get j (put id updated s.users) ≡ some w → IsUserResponse w
  typed-put j w e = elim (get-put_cases id j updated s.users e) [
    | inl (same, here) ↦ subst IsUserResponse here fits
    | inr (other, old) ↦ h.typed j w old
  ]

  -- Two users never share a name.
  other_name :
      (j : String) (w : UserResponse)
      → id ≢ j
      → get j s.users ≡ some w
      → existing.username ≢ w.username
  other_name j w other old p = other (cc (p, h.complete id existing stored, h.complete j w old))

  pub replace-IsConsistent :
      updated.username ≡ existing.username
      → IsConsistent (record s { users = put id updated s.users })
  replace-IsConsistent kept = record {
    distinct = IsDistinct-put id updated s.users h.distinct;
    sound = λ u j e.
        let (w, there, named) = h.sound u j e in
        elim (Bool-cases (id == j)) [
          | inl same ↦
              let here = (eq_iff id j).0 same in
              (
                updated,
                rw (← here) (get-put_self id updated s.users),
                cc (kept, here, stored, there, named),
              )
          | inr other ↦ (w, get-put_ne updated s.users (ne_of_beq id j other) ∙ there, named)
        ];
    complete = λ j w e. elim (get-put_cases id j updated s.users e) [
      | inl (same, here) ↦ rw (← here, ← same, kept) (h.complete id existing stored)
      | inr (other, old) ↦ h.complete j w old
    ];
    own_id = own_id-put;
    typed = typed-put;
  }

  pub rename-IsConsistent :
      (name : Value)
      → updated.username ≡ name
      → is_taken (get name s.users_by_username) id ≡ false
      → IsConsistent (record {
        users = put id updated s.users;
        users_by_username = put name id (pop existing.username s.users_by_username);
      })
  rename-IsConsistent name named_so free = record {
    distinct = IsDistinct-put id updated s.users h.distinct;
    sound = λ u j e. elim (get-put_cases name u id _ e) [
      | inl (same, here) ↦ (updated, rw (← here) (get-put_self id updated s.users), named_so ∙ same)
      | inr (other, rest) ↦
          let (kept, old) = get-pop_cases existing.username u s.users_by_username rest in
          let (w, there, named) = h.sound u j old in
          (w, get-put_ne updated s.users (λ p. kept (cc (p, stored, there, named))) ∙ there, named)
    ];
    complete = λ j w e. elim (get-put_cases id j updated s.users e) [
      | inl (same, here) ↦ rw (← here, ← same, named_so) (get-put_self name id _)
      | inr (other, old) ↦
          get-put_ne id _ (λ p. other (
            sym (
              owner_of_free _ id j free
                (ap (λ u. get u s.users_by_username) p ∙ h.complete j w old))))
          ∙ get-pop_ne s.users_by_username (other_name j w other old)
          ∙ h.complete j w old
    ];
    own_id = own_id-put;
    typed = typed-put;
  }
