-- ===== src/Index/Retention/Budget.antt =====
-- vectordb/index_retention.py: which collections are candidates, and how many.
use package.text.Mathlib.Text.{◌==◌ as str_eq}
use rag_support_assistant.Prelude.{
  ℕ, zero, suc, ◌+◌, ◌-◌, ◌≤◌, ◌<◌, ◌≡◌, ◌≢◌, refl, sym, ap, ◌∙◌, ◌⊎◌, inl, inr, String, true,
  false, Bool-cases, List, [], ◌∷◌, ◌++◌, length, leb, Option, none, some, arith, eq_iff,
}
use rag_support_assistant.Index.{contains}
use rag_support_assistant.Index.Manifest.{Manifest}
use rag_support_assistant.Index.Retention.{Inventory, names}
use rag_support_assistant.Index.Retention.Bounded.{
  protected, protected_count, unprotected, first, bounded_of,
}

contains-first :
    (k : ℕ) (n : String) (ns : List String)
    → contains n ns ≡ false
    → contains n (first k ns) ≡ false
contains-first zero n ns h = refl
contains-first (suc k) n [] h = refl
contains-first (suc k) n (x ∷ ns) h = elim (Bool-cases (str_eq x n)) [
  | inl e ↦ ground arith
  | inr e ↦ rw (e) (contains-first k n ns (rw (e) at h))
]

contains-unprotected :
    (kept : List String) (n : String) (ns : List String)
    → contains n kept ≡ true
    → contains n (unprotected kept ns) ≡ false
contains-unprotected kept n [] h = refl
contains-unprotected kept n (x ∷ ns) h = elim (Bool-cases (contains x kept)) [
  | inl e ↦ rw (e) (contains-unprotected kept n ns h)
  | inr e ↦ elim (Bool-cases (str_eq x n)) [
    | inl same ↦
        let kept_too : contains x kept ≡ true =
          ap (λ z. contains z kept) ((eq_iff x n).0 same) ∙ h in
        ground arith
    | inr other ↦ rw (e, other) (contains-unprotected kept n ns h)
  ]
]

-- a collection that is active or previous is no candidate
pub contains-bounded_of :
    (max_versions : ℕ) (i : Option Inventory) (m : Manifest) (n : String)
    → contains n (protected m) ≡ true
    → contains n (bounded_of max_versions i (some m)) ≡ false
unfolding bounded_of
contains-bounded_of max_versions none m n h = refl
contains-bounded_of max_versions (some i) m n h =
    contains-first _ n _ (contains-unprotected (protected m) n (names i.collections) h)

-- the first `k` of a list and the rest of it
first_split :
    (k : ℕ) (ns : List String)
    → k ≤ length ns
    → (rest : List String) × (first k ns ++ rest ≡ ns)
      × (length rest + k ≡ length ns)
      × (length (first k ns) ≡ k)
first_split zero ns h = (ns, refl, omega arith, refl)
first_split (suc k) [] h = ground arith
first_split (suc k) (n ∷ ns) h =
    let (rest, joined, count, taken) = first_split k ns (omega arith) in
    (rest, ap (λ l. n ∷ l) joined, omega arith, omega arith)

first_budget :
    (spare : List String) (slots : ℕ)
    → (rest : List String) × (first (length spare - slots) spare ++ rest ≡ spare)
      × (length rest ≤ slots)
      × ((first (length spare - slots) spare ≡ []) ⊎ (length rest ≡ slots))
first_budget spare slots =
    let (rest, joined, count, taken) = first_split (length spare - slots) spare (omega arith) in
    elim (Bool-cases (leb (length spare) slots)) [
      | inl few ↦
          let none_left : length spare - slots ≡ 0 = ground arith in
          (rest, joined, omega arith, inl (rw (none_left) refl))
      | inr many ↦
          let more : slots < length spare = ground arith in
          (rest, joined, omega arith, inr (omega arith))
    ]

-- a collection that the manifest names as active or previous
abbrev pub IsNamed : Manifest → String → Type 0
IsNamed m n = (m.active_collection ≡ n) ⊎ (m.previous_collection ≡ some n)

-- the second list has the names of the first that the manifest does not name, in order
pub data Sifts (m : Manifest) : List String → List String → Type 0 where
  nothing : Sifts m [] []
  held : {n : String} {ns us : List String} → IsNamed m n → Sifts m ns us → Sifts m (n ∷ ns) us
  spare :
      {n : String} {ns us : List String} → ¬ IsNamed m n → Sifts m ns us → Sifts m (n ∷ ns) (n ∷ us)

-- the number of collections that the manifest names
abbrev pub Names : ℕ → Manifest → Type 0
Names k m =
    ((k ≡ 1)
      × ((m.previous_collection ≡ none) ⊎ (m.previous_collection ≡ some m.active_collection)))
    ⊎ ((p : String) × (k ≡ 2) × (m.previous_collection ≡ some p) × (m.active_collection ≢ p))

abbrev pub HasBudget : ℕ → Inventory → Manifest → Type 0
HasBudget max_versions i m =
    (rest : List String) × (k : ℕ) × Sifts m (names i.collections)
      (bounded_of max_versions (some i) (some m) ++ rest)
    × Names k m
    × (k + length rest ≤ max_versions)
    × ((bounded_of max_versions (some i) (some m) ≡ []) ⊎ (k + length rest ≡ max_versions))

protected-IsNamed :
    (m : Manifest) (n : String)
    → ((contains n (protected m) ≡ true) × IsNamed m n)
      ⊎ ((contains n (protected m) ≡ false) × (¬ IsNamed m n))
protected-IsNamed m n = by_previous m.previous_collection
  where
    by_previous :
        (o : Option String)
        → let m' = record m { previous_collection = o } in
          ((contains n (protected m') ≡ true) × IsNamed m' n)
          ⊎ ((contains n (protected m') ≡ false) × (¬ IsNamed m' n))
    by_previous none = elim (Bool-cases (str_eq m.active_collection n)) [
      | inl e ↦ inl (rw (e) refl, inl ((eq_iff m.active_collection n).0 e))
      | inr e ↦ inr (
        rw (e) refl,
        λ named. elim named [
          | inl same ↦ let absurd = (eq_iff m.active_collection n).1 same in ground arith
          | inr never ↦ ground arith
        ],
      )
    ]
    by_previous (some p) = elim (Bool-cases (str_eq m.active_collection n)) [
      | inl e ↦ inl (rw (e) refl, inl ((eq_iff m.active_collection n).0 e))
      | inr e ↦ elim (Bool-cases (str_eq p n)) [
        | inl f ↦ inl (rw (e, f) refl, inr (ap (λ x. some x) ((eq_iff p n).0 f)))
        | inr f ↦ inr (
          rw (e, f) refl,
          λ named. elim named [
            | inl same ↦ let absurd = (eq_iff m.active_collection n).1 same in ground arith
            | inr before ↦
                let same : p ≡ n = ground arith in let absurd = (eq_iff p n).1 same in ground arith
          ],
        )
      ]
    ]

unprotected-Sifts : (m : Manifest) (ns : List String) → Sifts m ns (unprotected (protected m) ns)
unprotected-Sifts m [] = nothing
unprotected-Sifts m (n ∷ ns) = elim (protected-IsNamed m n) [
  | inl (e, named) ↦ rw (e) (held named (unprotected-Sifts m ns))
  | inr (e, other) ↦ rw (e) (spare other (unprotected-Sifts m ns))
]

protected_count-Names : (m : Manifest) → Names (protected_count m) m
protected_count-Names m = by_previous m.previous_collection
  where
    by_previous :
        (o : Option String)
        → let m' = record m { previous_collection = o } in Names (protected_count m') m'
    by_previous none = inl (refl, inl refl)
    by_previous (some p) = elim (Bool-cases (str_eq m.active_collection p)) [
      | inl e ↦ inl (rw (e) refl, inr (ap (λ x. some x) (sym ((eq_iff m.active_collection p).0 e))))
      | inr e ↦ inr (
        p,
        rw (e) refl,
        refl,
        λ same. let absurd = (eq_iff m.active_collection p).1 same in ground arith,
      )
    ]

Names-low : (k : ℕ) (m : Manifest) → Names k m → k ≤ 2
Names-low k m (inl (one, h)) = omega arith
Names-low k m (inr (p, two, h, other)) = omega arith

-- Where at least two versions are kept, as the code demands, the candidates and the collections that
-- stay are together, in order, the recorded ones that the manifest does not name, with the
-- candidates first. Those that stay and those that the manifest names are no more than the number
-- of versions; and they are exactly that many unless there is no candidate.
pub bounded_within_budget :
    (max_versions : ℕ) (i : Inventory) (m : Manifest)
    → 2 ≤ max_versions
    → HasBudget max_versions i m
unfolding bounded_of
bounded_within_budget max_versions i m low =
    let free = unprotected (protected m) (names i.collections) in
    let (rest, joined, few, full) = first_budget free (max_versions - protected_count m) in
    let named = protected_count-Names m in
    let fits = Names-low (protected_count m) m named in
    let taken : Sifts m (names i.collections)
        (first (length free - (max_versions - protected_count m)) free ++ rest) =
      rw (joined) (unprotected-Sifts m (names i.collections)) in
    (
      rest,
      protected_count m,
      taken,
      named,
      omega arith,
      elim full [ inl e ↦ inl e | inr e ↦ inr (omega arith) ],
    )
