-- ===== src/Agent/Bound.antt =====
-- agent/grounding.py: the binding and the scoring of all claims of an answer.
use rag_support_assistant.Prelude.{
  ℕ, zero, suc, ◌≤◌, ◌≡◌, ◌≢◌, refl, sym, ap, ◌∙◌, inl, inr, String, Bool, true, false, Bool-cases,
  List, [], ◌∷◌, map, length, All, Option, none, some, ◌==◌, min, arith, if◌then◌else◌,
}
use rag_support_assistant.Agent.{
  Status, verified, unsupported, not_verified, Claim, is_nonempty, is_supported, count_supported,
  status_for_claims,
}
use rag_support_assistant.Agent.Verify.{
  Verdict, first, overridden, cut_off, verify_claim, add_claim, verify_claims,
}
use rag_support_assistant.Agent.Citations.{
  is_in, citation_numbers, cited_texts, bind_claim, unbound, bind_to, bind_claims,
}
use rag_support_assistant.Agent.Sources.{
  IsBound, AreSources, cited_texts-AreSources, map-bind_claim-IsBound,
}

count_supported-bound : (cs : List Claim) → count_supported true cs ≤ length cs
count_supported-bound [] = omega arith
count_supported-bound (c ∷ cs) = elim (Bool-cases (is_supported true c)) [
  | inl e ↦ rw (e) omega (arith, count_supported-bound cs)
  | inr e ↦ rw (e) omega (arith, count_supported-bound cs)
]

count_supported-All :
    (cs : List Claim)
    → count_supported true cs ≡ length cs
    → All (λ (c : Claim). is_supported true c ≡ true) cs
count_supported-All [] h = tt
count_supported-All (c ∷ cs) h = elim (Bool-cases (is_supported true c)) [
  | inl e ↦
      let rest : suc (count_supported true cs) ≡ length (c ∷ cs) = rw (e) at h in
      (e, count_supported-All cs (omega arith))
  | inr e ↦
      let rest : count_supported true cs ≡ length (c ∷ cs) = rw (e) at h in
      let few = count_supported-bound cs in ground arith
]

verified_if :
    (b : Bool) (n : ℕ)
    → (if◌then◌else◌ {A = Status × ℕ} b (verified, n) (unsupported, n)).0 ≡ verified
    → b ≡ true
verified_if true n h = refl
verified_if false n h = ground arith

pub status_for_claims-verified :
    (cs : List Claim)
    → (status_for_claims true cs).0 ≡ verified
    → (is_nonempty cs ≡ true) × All (λ (c : Claim). is_supported true c ≡ true) cs
unfolding status_for_claims
status_for_claims-verified [] h = ground arith
status_for_claims-verified (c ∷ cs) h =
    let all = verified_if (count_supported true (c ∷ cs) == length (c ∷ cs)) _ h in
    (refl, count_supported-All (c ∷ cs) (ground arith))

pub overridden-verified :
    (cs : List Claim) (o : Option Status) (r : Status × ℕ)
    → o ≢ some verified
    → (overridden cs o r).0 ≡ verified
    → (o ≡ none) × (r.0 ≡ verified)
overridden-verified cs none (status, n) real h = (refl, h)
overridden-verified cs (some not_verified) (status, n) real h = ground arith
overridden-verified cs (some unsupported) (status, n) real h = ground arith
overridden-verified cs (some verified) (status, n) real h = elim (real refl) [ ]

pub cut_off-verified :
    (b : Bool) (cs : List Claim) (r : Status × ℕ)
    → (cut_off b cs r).0 ≡ verified
    → (b ≡ false) × (r.0 ≡ verified)
cut_off-verified false cs (status, n) h = (refl, h)
cut_off-verified true cs (status, n) h = ground arith

length-map {ℓ κ} :
    {A : Type ℓ} {B : Type κ} (f : A → B) (xs : List A) → length (map f xs) ≡ length xs
length-map f [] = refl
length-map f (x ∷ xs) = ap suc (length-map f xs)

pub length-first {ℓ} : {A : Type ℓ} (n : ℕ) (xs : List A) → length (first n xs) ≡ min n (length xs)
length-first zero xs = omega arith
length-first (suc n) [] = omega arith
length-first (suc n) (x ∷ xs) = omega (arith, length-first n xs)

module _ (lower upper : String → String) (words lines : String → List String)
    (citations : String → List ℕ) where
  -- no claim is left out
  pub length-verify_claims :
      (verdict : String → Verdict) (ls : List String) (cs : List Claim)
      → verify_claims lower upper words lines citations verdict ls ≡ some cs
      → length cs ≡ length ls
  length-verify_claims verdict [] cs h = ground arith
  length-verify_claims verdict (l ∷ ls) cs h =
      both (verify_claim lower upper words lines citations l (verdict l))
        (verify_claims lower upper words lines citations verdict ls)
        (λ ds e. length-verify_claims verdict ls ds e) refl h
    where
      both :
          (c : Option Claim) (rest : Option (List Claim))
          → ((ds : List Claim)
              → verify_claims lower upper words lines citations verdict ls ≡ some ds
              → length ds ≡ length ls)
          → verify_claims lower upper words lines citations verdict ls ≡ rest
          → add_claim lower upper words lines citations c rest ≡ some cs
          → length cs ≡ suc (length ls)
      both none rest known e h = ground arith
      both (some c) none known e h = ground arith
      both (some c) (some ds) known e h =
          let made : c ∷ ds ≡ cs = ground arith in ap length (sym made) ∙ ap suc (known ds e)

  numbers_listed :
      (ms ns : List ℕ)
      → ((n : ℕ) → is_in n ns ≡ true → is_in n ms ≡ true)
      → All (λ n. is_in n ms ≡ true) ns
  numbers_listed ms [] h = tt
  numbers_listed ms (n ∷ ns) h =
      (h n (rw (same_number n) refl), numbers_listed ms ns (λ m e. h m (later m e)))
    where
      same_number : (k : ℕ) → (k == k) ≡ true
      same_number k = ground arith

      later : (m : ℕ) → is_in m ns ≡ true → is_in m (n ∷ ns) ≡ true
      later m e = elim (Bool-cases (n == m)) [ inl f ↦ rw (f) refl | inr f ↦ rw (f) e ]

  -- the end of a binding whose claims are all supported
  abbrev pub AreBound : String → List String → List Claim → Type 0
  AreBound answer docs cs =
      All (IsBound lower words citations docs (citation_numbers lower words citations answer)) cs

  bind_to-AreBound :
      (docs : List String) (numbers : List ℕ) (cited : List (ℕ × String)) (cs : List Claim)
      → AreSources lower words citations docs numbers cited
      → (bind_to lower words citations numbers cited cs).1 ≡ none
      → All
          (λ (c : Claim). is_supported true c ≡ true)
          (bind_to lower words citations numbers cited cs).0
      → All
          (IsBound lower words citations docs numbers)
          (bind_to lower words citations numbers cited cs).0
  bind_to-AreBound docs numbers [] cs sources h k = ground arith
  bind_to-AreBound docs numbers (d ∷ ds) cs sources h k =
      map-bind_claim-IsBound lower words citations docs numbers (d ∷ ds) cs sources k

  pub bind_claims-AreBound :
      (answer : String) (cs : List Claim) (docs : List String)
      → (bind_claims lower words citations answer cs docs).1 ≡ none
      → All
          (λ (c : Claim). is_supported true c ≡ true)
          (bind_claims lower words citations answer cs docs).0
      → AreBound answer docs (bind_claims lower words citations answer cs docs).0
  unfolding bind_claims
  bind_claims-AreBound answer [] docs h k = tt
  bind_claims-AreBound answer (c ∷ cs) docs h k =
      let numbers = citation_numbers lower words citations answer in
      bind_to-AreBound docs numbers (cited_texts lower words citations docs numbers) (c ∷ cs)
        (cited_texts-AreSources lower words citations docs numbers numbers
          (numbers_listed numbers numbers (λ n e. e)))
        h k

  bind_to-not_verified :
      (numbers : List ℕ) (cited : List (ℕ × String)) (cs : List Claim)
      → (bind_to lower words citations numbers cited cs).1 ≢ some verified
  bind_to-not_verified numbers [] cs = λ e. ground arith
  bind_to-not_verified numbers (d ∷ ds) cs = λ e. ground arith

  pub bind_claims-not_verified :
      (answer : String) (cs : List Claim) (docs : List String)
      → (bind_claims lower words citations answer cs docs).1 ≢ some verified
  unfolding bind_claims
  bind_claims-not_verified answer [] docs = λ e. ground arith
  bind_claims-not_verified answer (c ∷ cs) docs = bind_to-not_verified _ _ (c ∷ cs)

  length-bind_to :
      (numbers : List ℕ) (cited : List (ℕ × String)) (cs : List Claim)
      → length (bind_to lower words citations numbers cited cs).0 ≡ length cs
  length-bind_to numbers [] cs = length-map (unbound lower words citations numbers) cs
  length-bind_to numbers (d ∷ ds) cs = length-map (bind_claim lower words citations (d ∷ ds)) cs

  pub length-bind_claims :
      (answer : String) (cs : List Claim) (docs : List String)
      → length (bind_claims lower words citations answer cs docs).0 ≡ length cs
  unfolding bind_claims
  length-bind_claims answer [] docs = refl
  length-bind_claims answer (c ∷ cs) docs = length-bind_to _ _ (c ∷ cs)
