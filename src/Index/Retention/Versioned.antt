-- ===== src/Index/Retention/Versioned.antt =====
-- vectordb/index_staging.py: the names that staging gives, as the inventory and the manifest check
-- them.
use rag_support_assistant.Prelude.{
  ℕ, ◌+◌, ◌-◌, ◌≤◌, ◌==◌, ◌≡◌, refl, ap, sym, ◌∙◌, inl, inr, String, Bool, true, ◌&&◌, leb,
  Bool-cases, arith, eq_iff,
}
use rag_support_assistant.Text
use rag_support_assistant.Index.{Result, ok, raise}
use rag_support_assistant.Index.Names.{
  validate_name, staged_name, staged_form, checked_form, staged_of, all_hex, is_safe, is_alnum,
  max_name_length,
}
use rag_support_assistant.Index.Retention.{validate_versioned}

length-append : (s t : String) → Text.length (Text.append s t) ≡ Text.length s + Text.length t
length-append String.[] t = omega arith
length-append (String.◌∷◌ c s) t = omega (arith, length-append s t)

append_assoc : (s t u : String) → Text.append s (Text.append t u) ≡ Text.append (Text.append s t) u
append_assoc String.[] t u = refl
append_assoc (String.◌∷◌ c s) t u = ap (String.◌∷◌ c) (append_assoc s t u)

drop-length : (s t : String) → Text.drop (Text.length s) (Text.append s t) ≡ t
drop-length String.[] t = refl
drop-length (String.◌∷◌ c s) t = drop-length s t

-- the last 16 characters of a text that ends in 16
last_characters :
    (s t : String)
    → Text.length t ≡ 16
    → Text.drop (Text.length (Text.append s t) - 16) (Text.append s t) ≡ t
last_characters s t h =
    let enough : Text.length (Text.append s t) - 16 ≡ Text.length s =
      omega (arith, length-append s t) in
    ap (λ k. Text.drop k (Text.append s t)) enough ∙ drop-length s t

is_safe-positive : (edge : ℕ → Bool) (s : String) → is_safe edge s ≡ true → 1 ≤ Text.length s
unfolding is_safe
is_safe-positive edge String.[] h = ground arith
is_safe-positive edge (String.◌∷◌ c s) h = omega arith

validate_name-ok :
    (s : String)
    → Text.length s ≤ max_name_length
    → is_safe is_alnum s ≡ true
    → validate_name s ≡ ok s
unfolding validate_name
validate_name-ok s short safe =
    let long = is_safe-positive is_alnum s safe in
    let bounds : (leb 1 (Text.length s) && leb (Text.length s) max_name_length) ≡ true =
      ground arith in
    rw (bounds, safe) refl

module _ (digest hash : String → String) (prefix : String) (zoned : String → Bool)
    (tenant_id : String) where
  -- what is known of a name that staging gives
  abbrev IsStaged : String → String → Type 0
  IsStaged candidate name =
      (tenant : String) × (name ≡ staged_form digest prefix candidate tenant)
      × (Text.length candidate ≡ 16)
      × (Text.length name ≤ max_name_length)
      × (is_safe is_alnum name ≡ true)

  checked_form-ok :
      (form name : String)
      → checked_form digest prefix form ≡ ok name
      → (form ≡ name) × (Text.length form ≤ max_name_length) × (is_safe is_alnum form ≡ true)
  checked_form-ok form name h = elim (Bool-cases (is_safe is_alnum form)) [
    | inl e ↦ (ground arith, ground arith, e)
    | inr e ↦ ground arith
  ]

  staged_of-IsStaged :
      (candidate name : String) (r : Result String)
      → Text.length candidate ≡ 16
      → staged_of digest prefix candidate r ≡ ok name
      → IsStaged candidate name
  staged_of-IsStaged candidate name (raise e) h q = ground arith
  staged_of-IsStaged candidate name (ok tenant) h q =
      let (same, short, safe) =
        checked_form-ok (staged_form digest prefix candidate tenant) name q in
      (tenant, sym same, h, rw (same) at short, rw (same) at safe)

  staged_name-IsStaged :
      (candidate name : String)
      → staged_name digest prefix tenant_id candidate ≡ ok name
      → IsStaged candidate name
  unfolding staged_name
  staged_name-IsStaged candidate name h =
      elim (Bool-cases (all_hex candidate && Text.length candidate == 16)) [
        | inl e ↦ staged_of-IsStaged candidate name _ (ground arith) (rw (e) at h)
        | inr e ↦ ground arith
      ]

  last_candidate :
      (candidate name : String)
      → IsStaged candidate name
      → Text.drop (Text.length name - 16) name ≡ candidate
  last_candidate candidate name (tenant, form, long, short, safe) =
      let head = Text.append prefix (Text.append "-v-" (Text.append tenant "-")) in
      let joined : staged_form digest prefix candidate tenant ≡ Text.append head candidate =
        ap (λ u. Text.append prefix (Text.append "-v-" u)) (append_assoc tenant "-" candidate)
        ∙ ap (Text.append prefix) (append_assoc "-v-" (Text.append tenant "-") candidate)
        ∙ append_assoc prefix _ candidate in
      rw (form ∙ joined) (last_characters head candidate long)

  -- A name that staging gives to a version of a tenant's index is one that the tenant's inventory
  -- records and that the manifest accepts: it ends in its 16 digits, from which the inventory makes
  -- the same name again; it has at most 63 characters, begins and ends with a letter or digit, and
  -- has only letters, digits, full stops, underscores and dashes.
  pub staged_name-accepted :
      (candidate name : String)
      → staged_name digest prefix tenant_id candidate ≡ ok name
      → (validate_versioned digest hash prefix zoned tenant_id name ≡ ok name)
        × (validate_name name ≡ ok name)
        × (Text.length name ≤ 63)
        × (is_safe is_alnum name ≡ true)
  unfolding validate_versioned
  staged_name-accepted candidate name h =
      let staged = staged_name-IsStaged candidate name h in
      let (tenant, form, long, short, safe) = staged in
      let same = (eq_iff name name).1 refl in
      (
        rw (validate_versioned, last_candidate candidate name staged, h, same) refl,
        validate_name-ok name short safe,
        short,
        safe,
      )
