-- ===== src/Jobs/Tables.antt =====
-- The statements on a table, row by row.
use rag_support_assistant.Prelude.{
  ◌+◌, ◌≤◌, ◌≡◌, refl, ap, Bool, true, [], ◌∷◌, ◌++◌, length, All, arith, if◌then◌else◌, Bool-cases,
  inl, inr,
}
use rag_support_assistant.Jobs.{Job, Table, select, update, rowcount}

-- Old rows are related to the new ones in order, and rows that are added at the end meet `N`.
abbrev pub Evolves : (Job → Job → Type 0) → (Job → Type 0) → Table → Table → Type 0
Evolves R N [] rows' = All N rows'
Evolves R N (j ∷ rows) [] = ⊥
Evolves R N (j ∷ rows) (k ∷ rows') = R j k × Evolves R N rows rows'

module _ (R : Job → Job → Type 0) (N : Job → Type 0) where
  pub Evolves-refl : ((j : Job) → R j j) → (rows : Table) → Evolves R N rows rows
  Evolves-refl same [] = tt
  Evolves-refl same (j ∷ rows) = (same j, Evolves-refl same rows)

  pub Evolves-append :
      ((j : Job) → R j j) → (rows : Table) (k : Job) → N k → Evolves R N rows (rows ++ k ∷ [])
  Evolves-append same [] k n = (n, tt)
  Evolves-append same (j ∷ rows) k n = (same j, Evolves-append same rows k n)

  pub Evolves-update :
      (p : Job → Bool) (f : Job → Job) (rows : Table)
      → ((j : Job) → R j (if p j then f j else j))
      → Evolves R N rows (update p f rows)
  unfolding update
  Evolves-update p f [] moves = tt
  Evolves-update p f (j ∷ rows) moves = (moves j, Evolves-update p f rows moves)

pub Evolves-weaken :
    {R S : Job → Job → Type 0} {N M : Job → Type 0} (rows rows' : Table)
    → ((j k : Job) → R j k → S j k)
    → ((k : Job) → N k → M k)
    → Evolves R N rows rows'
    → Evolves S M rows rows'
Evolves-weaken [] [] f g e = tt
Evolves-weaken [] (k ∷ rows') f g e = (g k e.0, Evolves-weaken [] rows' f g e.1)
Evolves-weaken (j ∷ rows) [] f g e = e
Evolves-weaken (j ∷ rows) (k ∷ rows') f g e = (f j k e.0, Evolves-weaken rows rows' f g e.1)

-- a property of all rows is kept, if a move keeps it and added rows have it
pub Evolves-All :
    {R : Job → Job → Type 0} {N P : Job → Type 0} (rows rows' : Table)
    → ((j k : Job) → R j k → P j → P k)
    → ((k : Job) → N k → P k)
    → Evolves R N rows rows'
    → All P rows
    → All P rows'
Evolves-All [] [] f g e h = tt
Evolves-All [] (k ∷ rows') f g e h = (g k e.0, Evolves-All [] rows' f g e.1 h)
Evolves-All (j ∷ rows) [] f g e h = absurd e
Evolves-All (j ∷ rows) (k ∷ rows') f g e h = (f j k e.0 h.0, Evolves-All rows rows' f g e.1 h.1)

-- how often a test holds after an UPDATE
pub rowcount-update :
    (q r p : Job → Bool) (f : Job → Job) (rows : Table)
    → ((j : Job) → q (if p j then f j else j) ≡ r j)
    → rowcount q (update p f rows) ≡ rowcount r rows
unfolding rowcount update
rowcount-update q r p f [] h = refl
rowcount-update q r p f (j ∷ rows) h = rw (h j, rowcount-update q r p f rows h) refl

pub rowcount-append :
    (p : Job → Bool) (rows more : Table)
    → rowcount p (rows ++ more) ≡ rowcount p rows + rowcount p more
unfolding rowcount
rowcount-append p [] more = omega arith
rowcount-append p (j ∷ rows) more = ground (arith, rowcount-append p rows more)

pub length-select : (p : Job → Bool) (rows : Table) → length (select p rows) ≡ rowcount p rows
unfolding select rowcount
length-select p [] = refl
length-select p (j ∷ rows) = ground (arith, length-select p rows)

-- an UPDATE that no row meets
pub update_none :
    (p : Job → Bool) (f : Job → Job) (rows : Table) → rowcount p rows ≡ 0 → update p f rows ≡ rows
unfolding rowcount update
update_none p f [] h = refl
update_none p f (j ∷ rows) h = elim (Bool-cases (p j)) [
  | inl met ↦ ground arith
  | inr unmet ↦ rw unmet (ap (λ r. j ∷ r) (update_none p f rows (rw unmet at h)))
]

-- a test that is implied holds at least as often
pub rowcount_mono :
    (p q : Job → Bool) (rows : Table)
    → ((j : Job) → p j ≡ true → q j ≡ true)
    → rowcount p rows ≤ rowcount q rows
unfolding rowcount
rowcount_mono p q [] h = omega arith
rowcount_mono p q (j ∷ rows) h = ground (arith, h j, rowcount_mono p q rows h)

-- UPDATEs that agree on every row
pub update_cong :
    (p q : Job → Bool) (f g : Job → Job) (rows : Table)
    → ((j : Job) → (if p j then f j else j) ≡ (if q j then g j else j))
    → update p f rows ≡ update q g rows
unfolding update
update_cong p q f g [] h = refl
update_cong p q f g (j ∷ rows) h = rw (h j, update_cong p q f g rows h) refl

-- one UPDATE after another
pub update-update :
    (p q r : Job → Bool) (f g h : Job → Job) (rows : Table)
    → ((j : Job)
        → (if q (if p j then f j else j)
            then g (if p j then f j else j)
            else (if p j then f j else j))
          ≡ (if r j then h j else j))
    → update q g (update p f rows) ≡ update r h rows
unfolding update
update-update p q r f g h [] e = refl
update-update p q r f g h (j ∷ rows) e = rw (e j, update-update p q r f g h rows e) refl

-- a lower bound on how often a test holds after an UPDATE
pub rowcount-update_le :
    (r q p : Job → Bool) (f : Job → Job) (rows : Table)
    → ((j : Job) → r j ≡ true → q (if p j then f j else j) ≡ true)
    → rowcount r rows ≤ rowcount q (update p f rows)
unfolding rowcount update
rowcount-update_le r q p f [] h = omega arith
rowcount-update_le r q p f (j ∷ rows) h = ground (arith, h j, rowcount-update_le r q p f rows h)
