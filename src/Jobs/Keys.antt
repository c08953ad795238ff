-- ===== src/Jobs/Keys.antt =====
-- The statements on a table of which an identifier is the primary key.
use rag_support_assistant.Prelude.{
  ℕ, ◌≤◌, ◌<◌, ◌≡◌, refl, ap, sym, ◌∙◌, Bool, true, false, ◌&&◌, List, [], ◌∷◌, length, All, arith,
  if◌then◌else◌, Bool-cases, inl, inr, ◌⊎◌, String,
}
use rag_support_assistant.Jobs.{Job, Table, select, update, rowcount, has_id, has_owner}
use rag_support_assistant.Jobs.Service.{change_job}
use rag_support_assistant.Jobs.Tables.{length-select, update_none, rowcount_mono}

-- the primary key
abbrev pub HasUniqueId : ℕ → Table → Type 0
HasUniqueId i rows = rowcount (has_id i) rows ≤ 1

abbrev pub HasUniqueIds : Table → Type 0
HasUniqueIds rows = (i : ℕ) → HasUniqueId i rows

module _ (p q : Job → Bool) (within : (j : Job) → p j ≡ true → q j ≡ true) where
  pub select_first :
      (rows : Table) (j : Job) (more : List Job)
      → select p rows ≡ j ∷ more
      → (p j ≡ true) × (0 < rowcount q rows)
  unfolding select rowcount
  select_first [] j more h = absurd (cc)
  select_first (k ∷ rows) j more h = elim (Bool-cases (p k)) [
    | inl met ↦ ground (arith, within k)
    | inr unmet ↦ ground (arith, select_first rows j more (rw unmet at h))
  ]

  pub select_none : (rows : Table) → select p rows ≡ [] → rowcount p rows ≡ 0
  select_none rows h = rw (← length-select p rows) (ap (length {A = Job}) h)

  pub select_single :
      (rows : Table)
      → rowcount q rows ≤ 1
      → (select p rows ≡ []) ⊎ ((j : Job) × (select p rows ≡ j ∷ []))
  select_single rows unique =
      at_most_one (select p rows)
        (omega (arith, length-select p rows, rowcount_mono p q rows within))
    where
      at_most_one : (l : List Job) → length l ≤ 1 → (l ≡ []) ⊎ ((j : Job) × (l ≡ j ∷ []))
      at_most_one [] h = inl refl
      at_most_one (j ∷ []) h = inr (j, refl)
      at_most_one (j ∷ k ∷ l) h = absurd (omega arith)

  -- to write the one selected row back by its key is to update the selected rows
  update_selected :
      (f : Job → Job) (rows : Table) (j : Job)
      → rowcount q rows ≤ 1
      → select p rows ≡ j ∷ []
      → update q (λ _. f j) rows ≡ update p f rows
  unfolding select rowcount update
  update_selected f [] j unique h = absurd (cc)
  update_selected f (k ∷ rows) j unique h = elim (Bool-cases (p k)) [
    | inl met ↦
        let here : q k ≡ true = within k met in
        let none_left : rowcount q rows ≡ 0 = ground arith in
        let none_left' : rowcount p rows ≡ 0 = omega (arith, rowcount_mono p q rows within) in
        let same : k ≡ j = ground arith in
        rw (met, here, same)
          (ap (λ r. f j ∷ r)
            (update_none q (λ _. f j) rows none_left ∙ sym (update_none p f rows none_left')))
    | inr unmet ↦
        let later : select p rows ≡ j ∷ [] = rw unmet at h in
        let some_left : 0 < rowcount q rows = (select_first rows j [] later).1 in
        let elsewhere : q k ≡ false = ground arith in
        rw (unmet, elsewhere)
          (ap (λ r. k ∷ r) (update_selected f rows j (rw elsewhere at unique) later))
  ]

has_owner-has_id : (i : ℕ) (t : String) (j : Job) → has_owner i t j ≡ true → has_id i j ≡ true
has_owner-has_id i t j h = ground arith

has_owner-id : (i : ℕ) (t : String) (j : Job) → has_owner i t j ≡ true → j.id ≡ i
has_owner-id i t j h = ground arith

-- Under a unique key, select-change-commit is one UPDATE of the row with the key and the tenant.
pub change_job-eq-update :
    (i : ℕ) (t : String) (f : Job → Job) (rows : Table)
    → ((j : Job) → (f j).id ≡ j.id)
    → HasUniqueId i rows
    → (change_job i t f rows).1 ≡ update (has_owner i t) f rows
unfolding change_job
change_job-eq-update i t f rows keeps unique =
    elim (select_single (has_owner i t) (has_id i) (has_owner-has_id i t) rows unique) [
      | inl none_met ↦
          rw (none_met, change_job)
            (sym (
              update_none (has_owner i t) f rows
                (select_none (has_owner i t) (has_id i) (has_owner-has_id i t) rows none_met)))
      | inr (j, met) ↦
          let own =
            (select_first (has_owner i t) (has_id i) (has_owner-has_id i t) rows j [] met).0 in
          let key : (f j).id ≡ i = keeps j ∙ has_owner-id i t j own in
          rw (met, change_job)
            (ap (λ n. update (has_id n) (λ _. f j) rows) key
              ∙ update_selected (has_owner i t) (has_id i) (has_owner-has_id i t) f rows j unique
                  met)
    ]

-- The one row with an id, after an UPDATE that met a row with that id.
module _ (p q : Job → Bool) (within : (j : Job) → p j ≡ true → q j ≡ true) (f : Job → Job)
    (Q : Job → Type 0) (made : (j : Job) → p j ≡ true → Q (f j)) where
  nowhere_else :
      (rows : Table) → rowcount q rows ≡ 0 → All (λ j. q j ≡ true → Q j) (update p f rows)
  unfolding update rowcount
  nowhere_else [] h = tt
  nowhere_else (j ∷ rows) h = elim (Bool-cases (p j)) [
    | inl met ↦ absurd (ground (arith, within j))
    | inr unmet ↦ rw unmet ((λ this. absurd (ground arith)), nowhere_else rows (ground arith))
  ]

  pub update_one-All :
      (rows : Table)
      → rowcount q rows ≤ 1
      → rowcount p rows ≡ 1
      → All (λ j. q j ≡ true → Q j) (update p f rows)
  unfolding update rowcount
  update_one-All [] u h = tt
  update_one-All (j ∷ rows) u h = elim (Bool-cases (p j)) [
    | inl met ↦ rw met ((λ _. made j met), nowhere_else rows (ground (arith, within j)))
    | inr unmet ↦
        let later : rowcount p rows ≡ 1 = rw unmet at h in
        let elsewhere : q j ≡ false = ground (arith, rowcount_mono p q rows within) in
        rw unmet ((λ this. absurd (cc)), update_one-All rows (rw elsewhere at u) later)
  ]

pub update-All :
    (p : Job → Bool) (f : Job → Job) (S P : Job → Type 0)
    → ((j : Job) → S j → P (if p j then f j else j))
    → (rows : Table) → All S rows
    → All P (update p f rows)
unfolding update
update-All p f S P g [] h = tt
update-All p f S P g (j ∷ rows) h = (g j h.0, update-All p f S P g rows h.1)

both_first : (q p : Job → Bool) (j : Job) → (q j && p j) ≡ true → q j ≡ true
both_first q p j h = ground arith

absent_meets :
    (q p : Job → Bool) (rows : Table)
    → rowcount q rows ≡ 0
    → All (λ j. q j ≡ true → p j ≡ true) rows
unfolding rowcount
absent_meets q p [] h = tt
absent_meets q p (j ∷ rows) h =
    ((λ this. absurd (ground arith)), absent_meets q p rows (ground arith))

-- if the one row with an id meets a test, every row with that id does
pub unique_meets :
    (q p : Job → Bool) (rows : Table)
    → rowcount q rows ≤ 1
    → rowcount (λ j. q j && p j) rows ≡ 1
    → All (λ j. q j ≡ true → p j ≡ true) rows
unfolding rowcount
unique_meets q p [] u h = tt
unique_meets q p (j ∷ rows) u h = elim (Bool-cases (q j)) [
  | inl this ↦
      let none_left : rowcount q rows ≡ 0 = ground arith in
      let none_both : rowcount (λ k. q k && p k) rows ≡ 0 =
        omega (arith, rowcount_mono (λ k. q k && p k) q rows (both_first q p)) in
      (
        (λ _. elim (Bool-cases (p j)) [ inl met ↦ met | inr unmet ↦ absurd (ground arith) ]),
        absent_meets q p rows none_left,
      )
  | inr other ↦ ((λ this. absurd (cc)), unique_meets q p rows (rw other at u) (rw other at h))
]
