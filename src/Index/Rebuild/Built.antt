-- ===== src/Index/Rebuild/Built.antt =====
-- vectordb/manager.py: what a build of a candidate leaves of the collections that are served.
use package.text.Mathlib.Text.{◌==◌ as str_eq}
use rag_support_assistant.Prelude.{
  ℕ, ◌≡◌, sym, ap, ◌∙◌, inl, inr, String, true, false, Bool-cases, List, Option, arith, eq_iff,
}
use rag_support_assistant.Index.{Result, ok, raise, contains, text}
use rag_support_assistant.Index.Manifest.{Manifest}
use rag_support_assistant.Index.Retention.Bounded.{without}
use rag_support_assistant.Index.Retention.Spared.{contains-without}
use rag_support_assistant.Index.Staging.{Chroma, Candidate}
use rag_support_assistant.Index.Staging.Leftovers.{IsTidy}
use rag_support_assistant.Index.Rebuild.Publication.{Served, Served-keep, apart}

-- a string that is not the name
another : (name : String) → (other : String) × (str_eq name other ≡ false)
another name = elim (Bool-cases (str_eq name "")) [
  | inr e ↦ ("", e)
  | inl e ↦ ("a", ap (λ n. str_eq n "a") ((eq_iff name "").0 e))
]

module _ (c : Chroma) where
  -- a candidate that was built has the name, and is in the store
  tidy-made :
      (name other : String) (count : ℕ) (cs left : List String) (r : Result Candidate)
      → IsTidy c name other count cs (r, left)
      → (a : Candidate) → r ≡ ok a
      → (a.collection_name ≡ name) × (contains name left ≡ true)
  tidy-made name other count cs left r (kept, inl (b, made, named, counted, long, there)) a h =
      let same : ok b ≡ ok a = sym made ∙ h in
      let one : b ≡ a = ground arith in (ap (λ x. x.collection_name) (sym one) ∙ named, there)
  tidy-made name other count cs left r (kept, inr (e, failed, gone)) a h =
      let absurd : raise e ≡ ok a = sym failed ∙ h in ground arith

  -- the store after a build with a fresh name
  pub tidy-Served :
      (name : String) (count : ℕ) (cs left : List String) (r : Result Candidate)
      (read : Result (Option Manifest))
      → contains name cs ≡ false
      → Served read cs
      → ((other : String) → str_eq name other ≡ false → IsTidy c name other count cs (r, left))
      → Served read left
        × ((a : Candidate)
            → r ≡ ok a
            → (contains a.collection_name left ≡ true)
              × Served read (without a.collection_name left))
  tidy-Served name count cs left r read fresh served tidy =
      let (other, differs) = another name in
      let kept : (m : Manifest)
          → contains m.active_collection cs ≡ true
          → contains m.active_collection left ≡ true =
        λ m there.
          (tidy m.active_collection (apart name m.active_collection cs fresh there)).0 ∙ there in
      (
        Served-keep read cs left served (λ m reads there. kept m there),
        λ a h.
            let (named, there) = tidy-made name other count cs left r (tidy other differs) a h in
            (
              ap (λ n. contains n left) named ∙ there,
              Served-keep read cs (without a.collection_name left) served (λ m reads there.
                  contains-without m.active_collection a.collection_name left (
                    ap (λ n. str_eq n m.active_collection) named
                    ∙ apart name m.active_collection cs fresh there)
                  ∙ kept m there),
            ),
      )
