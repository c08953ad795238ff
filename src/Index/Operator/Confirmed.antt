-- ===== src/Index/Operator/Confirmed.antt =====
-- vectordb/index_operator.py: what the execution of a retention may delete.
use package.text.Mathlib.Text.{◌==◌ as str_eq}
use rag_support_assistant.Prelude.{
  ℕ, zero, suc, ◌==◌, pos, ◌≡◌, refl, sym, ap, ◌∙◌, ◌⊎◌, inl, inr, String, Bool, true, false,
  Bool-cases, List, [], ◌∷◌, map, Option, none, some, arith, eq_iff,
}
use rag_support_assistant.Text
use rag_support_assistant.Index.{
  Result, ok, raise, ◌>>=◌, execution_invalid, integer, text, contains,
}
use rag_support_assistant.Index.Lock.{canonical, new_token}
use rag_support_assistant.Index.Files.{Fault}
use rag_support_assistant.Index.Manifest.{Manifest, read_manifest}
use rag_support_assistant.Index.Manifest.Trust.{bind-ok}
use rag_support_assistant.Index.Retention.Bounded.{Store, bounded_candidates}
use rag_support_assistant.Index.Retention.Spared.{execute_retention-contains}
use rag_support_assistant.Index.Operator.{
  Locking, positive, same_names, unique_names, confirm, confirmed, execute_confirmed,
  checked_execution, execute_index_retention,
}
use rag_support_assistant.Index.Operator.Commands.{under_lock-either}

same_names-equal : (xs ys : List String) → same_names xs ys ≡ true → xs ≡ ys
same_names-equal [] [] h = refl
same_names-equal [] (y ∷ ys) h = ground arith
same_names-equal (x ∷ xs) [] h = ground arith
same_names-equal (x ∷ xs) (y ∷ ys) h = elim (Bool-cases (str_eq x y)) [
  | inl e ↦
      let rest : same_names xs ys ≡ true = rw (e) at h in
      ap (λ z. z ∷ xs) ((eq_iff x y).0 e) ∙ ap (λ l. y ∷ l) (same_names-equal xs ys rest)
  | inr e ↦ ground arith
]

-- texts that are accepted are given back
unique_names_lem :
    (seen vs cs : List String)
    → unique_names execution_invalid seen (map (λ s. text s) vs) ≡ ok cs
    → vs ≡ cs
unique_names_lem seen [] cs h = ground arith
unique_names_lem seen (v ∷ vs) cs h = elim (Bool-cases (Text.is_empty v)) [
  | inl e ↦ ground arith
  | inr full ↦ elim (Bool-cases (contains v seen)) [
    | inl e ↦ ground arith
    | inr new ↦
        let rest = unique_names execution_invalid (v ∷ seen) (map (λ s. text s) vs) in
        let accepted : (rest >>= λ l. ok (v ∷ l)) ≡ ok cs = rw (full, new) at h in
        let (l, taken, same) = bind-ok rest (λ l. ok (v ∷ l)) cs accepted in
        let found : v ∷ l ≡ cs = ground arith in
        ap (λ l. v ∷ l) (unique_names_lem (v ∷ seen) vs l taken) ∙ found
  ]
]

module _ (deletes : String → Bool) (fault : String → Fault) (digest hash : String → String)
    (prefix : String) (zoned : String → Bool) (tenant_id : String) where
  abbrev normal : String
  normal = canonical tenant_id

  abbrev pub current : ℕ → Store → Result (List String)
  current max_versions s =
      bounded_candidates deletes fault digest hash prefix zoned normal max_versions s

  -- the durable state is the one that the operator expects
  abbrev pub IsExpected : ℕ → ℕ → List String → Store → Type 0
  IsExpected max_versions expected candidates s =
      (m : Manifest) × (read_manifest zoned s.manifest ≡ ok (some m))
      × (m.generation ≡ expected)
      × (current max_versions s ≡ ok candidates)

  confirm_lem :
      (expected : ℕ) (candidates found : List String) (m : Option Manifest)
      → confirm digest prefix zoned tenant_id deletes fault hash expected candidates found m ≡ ok tt
      → (a : Manifest) × (m ≡ some a) × (a.generation ≡ expected) × (found ≡ candidates)
  confirm_lem expected candidates found none h = ground arith
  confirm_lem expected candidates found (some a) h = elim (Bool-cases (a.generation == expected)) [
    | inr e ↦ ground arith
    | inl e ↦ elim (Bool-cases (same_names found candidates)) [
      | inr differ ↦ ground arith
      | inl same ↦ (a, refl, ground arith, same_names-equal found candidates same)
    ]
  ]

  confirmed_lem :
      (max_versions expected : ℕ) (candidates : List String) (s : Store)
      → confirmed digest prefix zoned tenant_id deletes fault hash max_versions expected candidates
          s
        ≡ ok tt
      → IsExpected max_versions expected candidates s
  unfolding confirmed
  confirmed_lem max_versions expected candidates s h =
      let (found, has, rest) = bind-ok (current max_versions s) _ tt h in
      let (m, reads, accepted) = bind-ok (read_manifest zoned s.manifest) _ tt rest in
      let (a, there, counted, same) = confirm_lem expected candidates found m accepted in
      (a, reads ∙ ap (λ o. ok o) there, counted, has ∙ ap (λ l. ok l) same)

  module _ (max_versions expected : ℕ) (candidates : List String) (s : Store) where
    -- what may differ after a run
    abbrev pub IsCareful : String → Store → Type 0
    IsCareful name after =
        (contains name after.collections ≡ contains name s.collections)
        × ((after ≡ s) ⊎ IsExpected max_versions expected candidates s)

    execute_confirmed-IsCareful :
        (name : String) (r : Result (Unit {0}))
        → confirmed digest prefix zoned tenant_id deletes fault hash max_versions expected
            candidates s
          ≡ r
        → contains name candidates ≡ false
        → IsCareful name
            (execute_confirmed digest prefix zoned tenant_id deletes fault hash
              (new_token normal)
              max_versions
              expected
              candidates
              s
              r).1
    unfolding execute_confirmed
    execute_confirmed-IsCareful name (raise e) h other = (refl, inl refl)
    execute_confirmed-IsCareful name (ok _) h other =
        let fits = confirmed_lem max_versions expected candidates s h in
        (
          execute_retention-contains deletes fault digest hash prefix zoned normal
              (some (new_token normal)) max_versions s name _ refl
              (λ cs found.
                let same : candidates ≡ cs = ground (arith, fits.3) in
                ap (λ l. contains name l) (sym same) ∙ other),
          inr fits,
        )

    checked-IsCareful :
        (l : Locking) (name : String) (count : Result ℕ) (names : Result (List String))
        → ((n : ℕ) → count ≡ ok n → n ≡ expected)
        → ((cs : List String) → names ≡ ok cs → candidates ≡ cs)
        → contains name candidates ≡ false
        → IsCareful name
            (checked_execution digest prefix zoned tenant_id deletes fault hash l max_versions s
              count names).1
    checked-IsCareful l name (raise e) names counted named other = (refl, inl refl)
    checked-IsCareful l name (ok n) (raise e) counted named other = (refl, inl refl)
    checked-IsCareful l name (ok n) (ok cs) counted named other =
        rw (counted n refl, sym (named cs refl))
          (under_lock-either (IsCareful name) l normal
            (λ token.
              execute_confirmed digest prefix zoned tenant_id deletes fault hash token max_versions
                expected candidates s
                (confirmed digest prefix zoned tenant_id deletes fault hash max_versions expected
                  candidates s))
            s (refl, inl refl) (execute_confirmed-IsCareful name _ refl other))

    as_positive :
        (n : ℕ) → positive execution_invalid (integer (pos expected)) ≡ ok n → n ≡ expected
    as_positive n h = given expected h
      where
        given : (e : ℕ) → positive execution_invalid (integer (pos e)) ≡ ok n → n ≡ e
        given zero h = ground arith
        given (suc e) h = ground arith

    -- An execution of the retention leaves every collection that it is not told to delete as it was
    -- in the vector store, whatever it meets at the lock and whichever deletion or write fails. And
    -- it leaves all files and collections as they were unless the manifest has the expected
    -- generation and the expected candidates are, in order, the current ones.
    pub execute_index_retention-IsCareful :
        (l : Locking) (name : String)
        → contains name candidates ≡ false
        → IsCareful name
            (execute_index_retention digest prefix zoned tenant_id deletes fault hash l max_versions
              (integer (pos expected))
              (some (map (λ c. text c) candidates))
              s).1
    unfolding execute_index_retention
    execute_index_retention-IsCareful l name other =
        checked-IsCareful l name (positive execution_invalid (integer (pos expected)))
          (unique_names execution_invalid [] (map (λ c. text c) candidates)) as_positive
          (λ cs. unique_names_lem [] candidates cs) other
