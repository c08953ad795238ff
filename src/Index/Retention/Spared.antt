-- ===== src/Index/Retention/Spared.antt =====
-- vectordb/index_retention.py: what the deletion of candidates leaves.
use package.text.Mathlib.Text.{◌==◌ as str_eq}
use rag_support_assistant.Prelude.{
  ℕ, ◌≡◌, refl, ap, sym, ◌∙◌, ◌⊎◌, inl, inr, String, Bool, true, false, leb, Bool-cases, List, [],
  ◌∷◌, ◌++◌, Option, none, some, arith, if◌then◌else◌, eq_iff,
}
use rag_support_assistant.Index.{Result, ok, raise, contains, demand, ◌>>◌, retention_invalid}
use rag_support_assistant.Index.Lock.{LockToken, require_lock}
use rag_support_assistant.Index.Files.{
  decoded, Disk, Fault, atomic_write, atomic_write-raise, atomic_write-ok,
}
use rag_support_assistant.Index.Manifest.{Manifest, read_manifest}
use rag_support_assistant.Index.Retention.{Document, Inventory, inventory_payload, read_inventory}
use rag_support_assistant.Index.Retention.Bounded.{
  bounded_of, protected, without, without_collection, Store, choose, bounded_candidates, prune_read,
  prune, execute_retention,
}
use rag_support_assistant.Index.Retention.Budget.{contains-bounded_of}

pub contains-without :
    (n c : String) (ks : List String)
    → str_eq c n ≡ false
    → contains n (without c ks) ≡ contains n ks
contains-without n c [] h = refl
contains-without n c (k ∷ ks) h = elim (Bool-cases (str_eq k c)) [
  | inl e ↦
      let same : k ≡ c = (eq_iff k c).0 e in
      let other : str_eq k n ≡ false = ap (λ x. str_eq x n) same ∙ h in
      rw (e, other) (contains-without n c ks h)
  | inr e ↦ rw (e) (ap (λ b. if str_eq k n then true else b) (contains-without n c ks h))
]

module _ (deletes : String → Bool) (fault : String → Fault) where
  -- one candidate of the loop, by what deleting, pruning and writing it give
  pub prune_step :
      (P : Store → Type 0) (c : String) (cs : List String) (i : Inventory) (deleted : List String)
      (s : Store)
      → P s
      → ((d : Disk Document)
          → d.file ≡ s.inventory.file
          → P (record s { inventory = d; collections = without c s.collections }))
      → ((left : Inventory) (d : Disk Document)
          → without_collection i c ≡ ok left
          → d.file ≡ decoded (inventory_payload left)
          → P
              (prune deletes fault cs left
                (deleted ++ c ∷ [])
                (record s { inventory = d; collections = without c s.collections })).1)
      → P (prune deletes fault (c ∷ cs) i deleted s).1
  unfolding prune
  prune_step P c cs i deleted s kept gone rest =
      decide (deletes c) refl (without_collection i c) refl
    where
      decide :
          (b : Bool)
          → deletes c ≡ b
          → (r : Result Inventory) → without_collection i c ≡ r
          → P (prune deletes fault (c ∷ cs) i deleted s).1
      decide false e r q = rw (e, prune) kept
      decide true e (raise x) q = rw (e, q, prune) (gone s.inventory refl)
      decide true e (ok left) q =
          write ((atomic_write (fault c) (inventory_payload left) s.inventory).0) refl
        where
          write :
              (w : Result (Unit {0}))
              → (atomic_write (fault c) (inventory_payload left) s.inventory).0 ≡ w
              → P (prune deletes fault (c ∷ cs) i deleted s).1
          write (raise x) h =
              rw (e, q, prune, h)
                (gone _ (atomic_write-raise (fault c) (inventory_payload left) s.inventory x h))
          write (ok u) h =
              rw (e, q, prune, h)
                (rest left _ q (atomic_write-ok (fault c) (inventory_payload left) s.inventory h))

  prune-contains :
      (n : String) (cs : List String) (i : Inventory) (deleted : List String) (s : Store)
      → contains n cs ≡ false
      → contains n (prune deletes fault cs i deleted s).1.collections ≡ contains n s.collections
  unfolding prune
  prune-contains n [] i deleted s h = refl
  prune-contains n (c ∷ cs) i deleted s h =
      let other : str_eq c n ≡ false = ground arith in
      let others : contains n cs ≡ false = ground arith in
      let kept = contains-without n c s.collections other in
      prune_step (λ t. contains n t.collections ≡ contains n s.collections) c cs i deleted s refl
        (λ d same. kept)
        (λ left d found written. prune-contains n cs left (deleted ++ c ∷ []) _ others ∙ kept)

pub then_ok {ℓ} :
    {A : Type ℓ} (r : Result (Unit {0})) (q : Result A) (a : A) → (r >> q) ≡ ok a → q ≡ ok a
then_ok (ok u) q a h = h
then_ok (raise e) q a h = ground arith

choose-contains :
    (max_versions : ℕ) (r : Result (Option Inventory)) (m : Manifest) (n : String)
    (cs : List String)
    → contains n (protected m) ≡ true
    → choose max_versions r (ok (some m)) ≡ ok cs
    → contains n cs ≡ false
unfolding choose
choose-contains max_versions (raise e) m n cs kept h = ground arith
choose-contains max_versions (ok none) m n cs kept h =
    let same : [] ≡ cs = ground arith in rw (sym same) refl
choose-contains max_versions (ok (some i)) m n cs kept h =
    let same : bounded_of max_versions (some i) (some m) ≡ cs = ground arith in
    rw (sym same) (contains-bounded_of max_versions (some i) m n kept)

module _ (deletes : String → Bool) (fault : String → Fault) (digest hash : String → String)
    (prefix : String) (zoned : String → Bool) (tenant_id : String) where
  prune_read-contains :
      (n : String) (cs : List String) (s : Store) (again : Result (Option Inventory))
      → contains n cs ≡ false
      → contains n (prune_read deletes fault cs s again).1.collections ≡ contains n s.collections
  prune_read-contains n [] s again h = refl
  prune_read-contains n (c ∷ cs) s (raise e) h = refl
  prune_read-contains n (c ∷ cs) s (ok none) h = refl
  prune_read-contains n (c ∷ cs) s (ok (some i)) h =
      prune-contains deletes fault n (c ∷ cs) i [] s h

  bounded_candidates-contains :
      (max_versions : ℕ) (s : Store) (m : Manifest) (n : String) (cs : List String)
      → read_manifest zoned s.manifest ≡ ok (some m)
      → contains n (protected m) ≡ true
      → bounded_candidates deletes fault digest hash prefix zoned tenant_id max_versions s ≡ ok cs
      → contains n cs ≡ false
  unfolding bounded_candidates
  bounded_candidates-contains max_versions s m n cs reads kept h =
      let inventory = read_inventory digest hash prefix zoned tenant_id s.inventory.file in
      let chosen : choose max_versions inventory (read_manifest zoned s.manifest) ≡ ok cs =
        then_ok (demand (leb 2 max_versions) retention_invalid) _ cs h in
      choose-contains max_versions inventory m n cs kept (rw (reads) at chosen)

  protected_lem :
      (m : Manifest) (n : String)
      → (m.active_collection ≡ n) ⊎ (m.previous_collection ≡ some n)
      → contains n (protected m) ≡ true
  protected_lem m n (inl active) = rw ((eq_iff m.active_collection n).1 active) refl
  protected_lem m n (inr previous) = elim (Bool-cases (str_eq m.active_collection n)) [
    | inl e ↦ rw (e) refl
    | inr e ↦ rw (previous, contains, e, (eq_iff n n).1 refl) refl
  ]

  -- a collection that is no candidate is left as it was
  pub execute_retention-contains :
      (token : Option LockToken) (max_versions : ℕ) (s : Store) (n : String)
      (r : Result (List String))
      → (require_lock token tenant_id
          >> bounded_candidates deletes fault digest hash prefix zoned tenant_id max_versions s)
        ≡ r
      → ((cs : List String)
          → bounded_candidates deletes fault digest hash prefix zoned tenant_id max_versions s
            ≡ ok cs
          → contains n cs ≡ false)
      → contains n
          (execute_retention deletes fault digest hash prefix zoned tenant_id token max_versions
            s).1.collections
        ≡ contains n s.collections
  unfolding execute_retention
  execute_retention-contains token max_versions s n (raise e) q none_of =
      rw (q, execute_retention) refl
  execute_retention-contains token max_versions s n (ok cs) q none_of =
      rw (q, execute_retention)
        (prune_read-contains n cs s _ (none_of cs (then_ok (require_lock token tenant_id) _ cs q)))

  -- Bounded retention deletes no active and no previous collection: whatever the budget and the
  -- inventory say, and whichever deletion or write fails, a collection that the tenant's manifest
  -- names is in the vector store after it exactly if it was there before.
  pub active_collections_spared :
      (token : Option LockToken) (max_versions : ℕ) (s : Store) (m : Manifest) (n : String)
      → read_manifest zoned s.manifest ≡ ok (some m)
      → (m.active_collection ≡ n) ⊎ (m.previous_collection ≡ some n)
      → contains n
          (execute_retention deletes fault digest hash prefix zoned tenant_id token max_versions
            s).1.collections
        ≡ contains n s.collections
  active_collections_spared token max_versions s m n reads kept =
      execute_retention-contains token max_versions s n _ refl (λ cs found.
        bounded_candidates-contains max_versions s m n cs reads (protected_lem m n kept) found)
