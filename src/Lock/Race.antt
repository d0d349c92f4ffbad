-- ===== src/Lock/Race.antt =====
-- Threads that contend for one thing, among others that leave it alone.
use mathlib.Core.Path.{subst}
use platform_backend.Prelude.{
  none, beq_self, ◌==◌, ℕ, ◌≡◌, ◌≢◌, refl, sym, ◌∙◌, ap, ◌⊎◌, inl, inr, true, false, List, [], ◌∷◌,
  nat_eq, contains, Bool-cases,
}
use platform_backend.Lock.Threads.{Thread, finished, System, finished_inj}
use platform_backend.Lock.Serial.{listed_cons}
use platform_backend.Lock.Order.{served, Answered, IsOrdered}

-- Of the threads that contend none has a reply yet, or one has won, the store is as its win left it while
-- the lock is free, and every other reply is a loss.
abbrev pub HasOneWinner :
    {S A : Type 0} → (ℕ → Type 0) → (ℕ → A → Type 0) → (ℕ → S → Type 0) → A → System S A → Type 0
HasOneWinner {A = A} Contends HasWon IsTaken lost s =
    ((j : ℕ) (a : A) → Contends j → s.threads j ≢ finished a)
    ⊎ ((winner : ℕ) × (prize : A) × Contends winner
        × HasWon winner prize
        × (s.threads winner ≡ finished prize)
        × (s.holder ≡ none → IsTaken winner s.store)
        × ((j : ℕ) (a : A) → Contends j → winner ≢ j → s.threads j ≡ finished a → a ≡ lost))

-- What the steps do to the thing while it is free and once it is taken.
pub record IsRace {S A : Type 0} (act : ℕ → S → A × S) (Contends : ℕ → Type 0) (IsFree : S → Type 0)
    (IsTaken : ℕ → S → Type 0) (HasWon : ℕ → A → Type 0) (lost : A) : Type 0 where
  pub contends_or : (i : ℕ) → Contends i ⊎ (¬ Contends i)
  pub wins : (i : ℕ) (s : S) → Contends i → IsFree s → HasWon i (act i s).0 × IsTaken i (act i s).1
  pub loses :
      (winner i : ℕ) (s : S)
      → Contends winner
      → Contends i
      → winner ≢ i
      → IsTaken winner s
      → ((act i s).0 ≡ lost) × IsTaken winner (act i s).1
  pub free_stays : (i : ℕ) (s : S) → ¬ Contends i → IsFree s → IsFree (act i s).1
  pub taken_stays :
      (winner i : ℕ) (s : S)
      → Contends winner
      → ¬ Contends i
      → winner ≢ i
      → IsTaken winner s
      → IsTaken winner (act i s).1

module _ {S A : Type 0} (act : ℕ → S → A × S) (s0 : S) (Contends : ℕ → Type 0) (IsFree : S → Type 0)
    (IsTaken : ℕ → S → Type 0) (HasWon : ℕ → A → Type 0) (lost : A)
    (race : IsRace act Contends IsFree IsTaken HasWon lost) (free0 : IsFree s0)
    (threads : ℕ → Thread S A) where
  -- How the race stands after the threads of `past`.
  data Stands (past : List ℕ) : Type 0 where
    open_still :
        IsFree (served act s0 past) → ((j : ℕ) → Contends j → contains j past ≡ false) → Stands past
    won_by :
        (winner : ℕ) (prize : A)
        → IsTaken winner (served act s0 past)
        → Contends winner
        → contains winner past ≡ true
        → HasWon winner prize
        → threads winner ≡ finished prize
        → ((j : ℕ) → Contends j → winner ≢ j → contains j past ≡ true → threads j ≡ finished lost)
        → Stands past

  unlisted_after :
      (i : ℕ) (past : List ℕ)
      → ¬ Contends i
      → ((j : ℕ) → Contends j → contains j past ≡ false)
      → (j : ℕ) → Contends j
      → contains j (i ∷ past) ≡ false
  unlisted_after i past neutral out j contends = elim (Bool-cases (contains j (i ∷ past))) [
    | inr fresh ↦ fresh
    | inl listed ↦ elim (listed_cons j i past listed) [
      | inl same ↦ absurd (neutral (subst Contends same contends))
      | inr before ↦ cc (before, out j contends)
    ]
  ]

  listed_now : (i : ℕ) (past : List ℕ) → contains i (i ∷ past) ≡ true
  listed_now i past = rw (beq_self i) refl

  listed_later : (j i : ℕ) (past : List ℕ) → contains j past ≡ true → contains j (i ∷ past) ≡ true
  listed_later j i past before = elim (Bool-cases (j == i)) [
    | inl same ↦ rw same refl
    | inr other ↦ rw (other, before) refl
  ]

  earlier_differs :
      (winner i : ℕ) (past : List ℕ)
      → contains winner past ≡ true
      → contains i past ≡ false
      → winner ≢ i
  earlier_differs winner i past before fresh same = cc (before, fresh, same)

  stands : (past : List ℕ) → Answered act s0 past threads → Stands past
  stands [] h = open_still free0 (λ j contends. refl)
  stands (i ∷ past) (reply, fresh, h) = elim (race.contends_or i) [
    | inl contends ↦ elim (stands past h) [
      | open_still free out ↦
          let (won, taken) = race.wins i (served act s0 past) contends free in
          won_by i (act i (served act s0 past)).0 taken contends (listed_now i past) won reply
            (λ j other apart listed. elim (listed_cons j i past listed) [
              | inl same ↦ absurd (apart (sym same))
              | inr before ↦ cc (before, out j other)
            ])
      | won_by winner prize taken contended before won first others ↦
          let apart = earlier_differs winner i past before fresh in
          let (loss, still) =
            race.loses winner i (served act s0 past) contended contends apart taken in
          won_by winner prize still contended (listed_later winner i past before) won first
            (λ j other apart listed. elim (listed_cons j i past listed) [
              | inl same ↦ rw same (reply ∙ ap (λ a. finished a) loss)
              | inr before ↦ others j other apart before
            ])
    ]
    | inr neutral ↦ elim (stands past h) [
      | open_still free out ↦
          open_still (race.free_stays i (served act s0 past) neutral free)
            (unlisted_after i past neutral out)
      | won_by winner prize taken contended before won first others ↦
          won_by winner prize
            (race.taken_stays winner i (served act s0 past) contended neutral
              (earlier_differs winner i past before fresh) taken)
            contended (listed_later winner i past before) won first
            (λ j other apart listed. elim (listed_cons j i past listed) [
              | inl same ↦ absurd (neutral (subst Contends same other))
              | inr before ↦ others j other apart before
            ])
    ]
  ]

  pub one_winner :
      (s : System S A) (past : List ℕ)
      → s.threads ≡ threads
      → IsOrdered act s0 past s
      → HasOneWinner Contends HasWon IsTaken lost s
  one_winner s past same h = elim (stands past (subst (Answered act s0 past) same h.answered)) [
    | open_still free out ↦ inl (λ j a contends e. h.unanswered j a (out j contends) e)
    | won_by winner prize taken contended before won first others ↦ inr (
      winner,
      prize,
      contended,
      won,
      ap (λ f. f winner) same ∙ first,
      (λ idle. subst (IsTaken winner) (sym (h.left idle)) taken),
      λ j a contends other e. elim (Bool-cases (contains j past)) [
        | inl listed ↦
            finished_inj (threads j) (sym (ap (λ f. f j) same) ∙ e) (others j contends other listed)
        | inr fresh ↦ absurd (h.unanswered j a fresh e)
      ],
    )
  ]
