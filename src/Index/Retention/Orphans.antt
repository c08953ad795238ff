-- ===== src/Index/Retention/Orphans.antt =====
-- vectordb/index_retention.py: the inventory against the vector store, when a deletion or a write
-- fails.
use package.text.Mathlib.Text.{◌==◌ as str_eq}
use rag_support_assistant.Prelude.{
  ℕ, suc, ◌==◌, ◌≡◌, refl, ap, sym, ◌∙◌, ◌⊎◌, inl, inr, String, Bool, false, Bool-cases, List, [],
  ◌∷◌, ◌++◌, length, arith, eq_iff,
}
use rag_support_assistant.Index.{ok, contains}
use rag_support_assistant.Index.Files.{decoded, Fault}
use rag_support_assistant.Index.Retention.{Entry, Inventory, inventory_payload, names, last_time}
use rag_support_assistant.Index.Retention.Bounded.{
  without, remaining, reindexed, without_collection, Store, prune,
}
use rag_support_assistant.Index.Retention.Spared.{prune_step, contains-without}

contains_self : (n : String) (ks : List String) → contains n (without n ks) ≡ false
contains_self n [] = refl
contains_self n (k ∷ ks) = elim (Bool-cases (str_eq k n)) [
  | inl e ↦ rw (e) (contains_self n ks)
  | inr e ↦ rw (e, contains, e) (contains_self n ks)
]

gone_stays_gone :
    (n c : String) (ks : List String) → contains n ks ≡ false → contains n (without c ks) ≡ false
gone_stays_gone n c [] h = refl
gone_stays_gone n c (k ∷ ks) h =
    let other : str_eq k n ≡ false = ground arith in
    let others : contains n ks ≡ false = ground arith in
    elim (Bool-cases (str_eq k c)) [
      | inl e ↦ rw (e) (gone_stays_gone n c ks others)
      | inr e ↦ rw (e, contains, other) (gone_stays_gone n c ks others)
    ]

names-reindexed : (k : ℕ) (es : List Entry) → names (reindexed k es) ≡ names es
names-reindexed k [] = refl
names-reindexed k (e ∷ es) = ap (λ l. e.collection_name ∷ l) (names-reindexed (suc k) es)

names-remaining : (c : String) (es : List Entry) → names (remaining c es) ≡ without c (names es)
names-remaining c [] = refl
names-remaining c (e ∷ es) = elim (Bool-cases (str_eq e.collection_name c)) [
  | inl h ↦ rw (h) (names-remaining c es)
  | inr h ↦ rw (h) (ap (λ l. e.collection_name ∷ l) (names-remaining c es))
]

-- pruning an inventory takes one name away
names-without_collection :
    (i left : Inventory) (c : String)
    → without_collection i c ≡ ok left
    → names left.collections ≡ without c (names i.collections)
unfolding without_collection
names-without_collection i left c h =
    elim (Bool-cases (length (remaining c i.collections) == length i.collections)) [
      | inl e ↦ ground arith
      | inr e ↦
          let pruned : Inventory = record i {
            collections = reindexed 1 (remaining c i.collections);
            updated_at = last_time i.updated_at (reindexed 1 (remaining c i.collections));
          } in
          let same : pruned ≡ left = ground arith in
          ap (λ (j : Inventory). names j.collections) (sym same)
          ∙ names-reindexed 1 (remaining c i.collections)
          ∙ names-remaining c i.collections
    ]

-- the collections of `i` are either in the inventory of the file or gone from the store
abbrev pub HasNoOrphan : Inventory → Store → Type 0
HasNoOrphan i s =
    (j : Inventory) × (s.inventory.file ≡ decoded (inventory_payload j))
    × ((n : String)
        → (contains n (names i.collections) ≡ contains n (names j.collections))
          ⊎ (contains n s.collections ≡ false))

-- a collection that goes from one inventory to the next stays, or is the one that was deleted
step_lem :
    (i left : Inventory) (c : String) (n : String) (ks : List String)
    → without_collection i c ≡ ok left
    → (contains n (names i.collections) ≡ contains n (names left.collections))
      ⊎ (contains n (without c ks) ≡ false)
step_lem i left c n ks h = elim (Bool-cases (str_eq c n)) [
  | inl e ↦ inr (ap (λ x. contains n (without x ks)) ((eq_iff c n).0 e) ∙ contains_self n ks)
  | inr e ↦ inl (
      sym (
        ap (contains n) (names-without_collection i left c h)
        ∙ contains-without n c (names i.collections) e))
]

module _ (deletes : String → Bool) (fault : String → Fault) where
  prune_keeps_gone :
      (n : String) (cs : List String) (i : Inventory) (deleted : List String) (s : Store)
      → contains n s.collections ≡ false
      → contains n (prune deletes fault cs i deleted s).1.collections ≡ false
  unfolding prune
  prune_keeps_gone n [] i deleted s h = h
  prune_keeps_gone n (c ∷ cs) i deleted s h =
      let gone = gone_stays_gone n c s.collections h in
      prune_step deletes fault (λ t. contains n t.collections ≡ false) c cs i deleted s h
        (λ d same. gone)
        (λ left d found written. prune_keeps_gone n cs left (deleted ++ c ∷ []) _ gone)

  -- Whichever deletion or write fails, deleting candidates loses track of no collection: the file
  -- still holds an inventory, and each name has the same place in it as before (recorded or not),
  -- or the collection of that name is no longer in the vector store.
  pub prune-HasNoOrphan :
      (cs : List String) (i : Inventory) (deleted : List String) (s : Store)
      → s.inventory.file ≡ decoded (inventory_payload i)
      → HasNoOrphan i (prune deletes fault cs i deleted s).1
  unfolding prune
  prune-HasNoOrphan [] i deleted s file = (i, file, λ n. inl refl)
  prune-HasNoOrphan (c ∷ cs) i deleted s file =
      prune_step deletes fault (HasNoOrphan i) c cs i deleted s (i, file, λ n. inl refl)
        (λ d same. (i, same ∙ file, λ n. inl refl))
        (λ left d found written.
          let (j, filed, tracked) = prune-HasNoOrphan cs left (deleted ++ c ∷ []) _ written in
          (
            j,
            filed,
            λ n. elim (step_lem i left c n s.collections found) [
              | inr gone ↦ inr (prune_keeps_gone n cs left (deleted ++ c ∷ []) _ gone)
              | inl stays ↦ elim (tracked n) [ inl kept ↦ inl (stays ∙ kept) | inr gone ↦ inr gone ]
            ],
          ))
