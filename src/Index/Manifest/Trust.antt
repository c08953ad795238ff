-- ===== src/Index/Manifest/Trust.antt =====
-- vectordb/index_manifest.py: what is known of a manifest that is accepted.
use rag_support_assistant.Prelude.{
  sym, ◌∙◌, ℕ, suc, ◌≤◌, ◌≡◌, refl, ap, inl, inr, String, Bool, true, false, Bool-cases, Option,
  none, some, if◌then◌else◌, arith, pos,
}
use rag_support_assistant.Index.{
  manifest_corrupt, Result, ok, raise, ◌>>=◌, IndexError, Scalar, null, integer, text, Object,
  has_keys,
}
use rag_support_assistant.Index.Names.{validate_name}
use rag_support_assistant.Index.Files.{Stored, absent, undecodable, decoded}
use rag_support_assistant.Index.Manifest.{
  Manifest, assemble, schema, manifest_keys, Payload, object, other, field, as_schema,
  as_generation, corrupt, as_name, as_optional_name, as_updated_at, parse_manifest, read_manifest,
}
use rag_support_assistant.Index.Manifest.Publish.{IsName, IsOptionalName, IsTrusted}

-- a chain that succeeds has a first step that does
pub bind-ok {ℓ κ} :
    {A : Type ℓ} {B : Type κ} (r : Result A) (f : A → Result B) (b : B)
    → (r >>= f) ≡ ok b
    → (a : A) × (r ≡ ok a) × (f a ≡ ok b)
bind-ok (ok a) f b h = (a, refl, h)
bind-ok (raise e) f b h = ground arith

validate_name-IsName : (s t : String) → validate_name s ≡ ok t → IsName t
unfolding validate_name
validate_name-IsName s t h = let e : s ≡ t = ground arith in ap validate_name (sym e) ∙ h

pub corrupt_lem : (r : Result String) (s : String) → corrupt r ≡ ok s → r ≡ ok s
corrupt_lem (ok t) s h = h
corrupt_lem (raise e) s h = ground arith

as_schema_lem : (v : Scalar) (n : ℕ) → as_schema v ≡ ok n → n ≡ schema
as_schema_lem (integer (pos k)) n h = ground arith
as_schema_lem v n h = ground arith

as_generation_lem : (v : Scalar) (n : ℕ) → as_generation v ≡ ok n → 1 ≤ n
as_generation_lem (integer (pos (suc k))) n h = ground arith
as_generation_lem v n h = ground arith

as_name-IsName : (v : Scalar) (s : String) → as_name v ≡ ok s → IsName s
as_name-IsName (text t) s h = validate_name-IsName t s (corrupt_lem (validate_name t) s h)
as_name-IsName v s h = ground arith

named_lem :
    (v : Scalar) (o : Option String) → (as_name v >>= λ s. ok (some s)) ≡ ok o → IsOptionalName o
named_lem v none h = let (s, e, f) = bind-ok (as_name v) (λ s. ok (some s)) none h in ground arith
named_lem v (some t) h =
    let (s, e, f) = bind-ok (as_name v) (λ s. ok (some s)) (some t) h in
    let same : s ≡ t = ground arith in as_name-IsName v t (e ∙ ap ok same)

as_optional_name-IsOptionalName :
    (v : Scalar) (o : Option String) → as_optional_name v ≡ ok o → IsOptionalName o
as_optional_name-IsOptionalName null none h = tt
as_optional_name-IsOptionalName null (some t) h = ground arith
as_optional_name-IsOptionalName v o h = named_lem v o h

module _ (zoned : String → Bool) where
  as_updated_at_lem : (v : Scalar) (s : String) → as_updated_at zoned v ≡ ok s → zoned s ≡ true
  as_updated_at_lem (text t) s h = elim (Bool-cases (zoned t)) [
    | inl e ↦ let same : t ≡ s = ground arith in ap zoned (sym same) ∙ e
    | inr e ↦ ground arith
  ]
  as_updated_at_lem v s h = ground arith

  if_ok :
      {A : Type 0} (b : Bool) (r : Result A) (e : IndexError) (a : A)
      → (if b then r else raise e) ≡ ok a
      → r ≡ ok a
  if_ok true r e a h = h
  if_ok false r e a h = ground arith

  assemble-IsTrusted :
      (v g : Result ℕ) (b : Result (Option String)) (a t : Result String) (m : Manifest)
      → ((n : ℕ) → v ≡ ok n → n ≡ schema)
      → ((n : ℕ) → g ≡ ok n → 1 ≤ n)
      → ((o : Option String) → b ≡ ok o → IsOptionalName o)
      → ((s : String) → a ≡ ok s → IsName s)
      → ((s : String) → t ≡ ok s → zoned s ≡ true)
      → assemble zoned v g b a t ≡ ok m
      → IsTrusted zoned m
  assemble-IsTrusted (ok v) (ok g) (ok b) (ok a) (ok t) m known counted before named dated h =
      let made : Manifest = record {
        schema_version = v;
        active_collection = a;
        previous_collection = b;
        generation = g;
        updated_at = t;
      } in
      let same : made ≡ m = ground arith in
      rw (sym same) record {
        version_known = known v refl;
        active_named = named a refl;
        previous_named = before b refl;
        counted = counted g refl;
        dated = dated t refl;
      }
  assemble-IsTrusted v g b a t m known counted before named dated h = ground arith

  field_lem :
      {A : Type 0} (P : A → Type 0) (k : String) (o : Object) (check : Scalar → Result A)
      → ((v : Scalar) (a : A) → check v ≡ ok a → P a)
      → (a : A) → (field k o >>= check) ≡ ok a
      → P a
  field_lem P k o check holds a h =
      let (v, found, checked) = bind-ok (field k o) check a h in holds v a checked

  -- A document that is accepted as a manifest has the known schema version, safe names of 1 to 63
  -- characters for the active collection and the previous one, if any, a generation of at least 1
  -- and an update time with a zone.
  pub parse_manifest-IsTrusted :
      (p : Payload) (m : Manifest) → parse_manifest zoned p ≡ ok m → IsTrusted zoned m
  unfolding parse_manifest
  parse_manifest-IsTrusted other m h = ground arith
  parse_manifest-IsTrusted (object o) m h =
      assemble-IsTrusted _ _ _ _ _ m
        (field_lem (λ n. n ≡ schema) "schema_version" o as_schema as_schema_lem)
        (field_lem (λ n. 1 ≤ n) "generation" o as_generation as_generation_lem)
        (field_lem IsOptionalName "previous_collection" o as_optional_name
          as_optional_name-IsOptionalName)
        (field_lem IsName "active_collection" o as_name as_name-IsName)
        (field_lem (λ s. zoned s ≡ true) "updated_at" o (as_updated_at zoned) as_updated_at_lem)
        (if_ok (has_keys manifest_keys o) _ manifest_corrupt m h)

  pub read_manifest-IsTrusted :
      (file : Stored Payload) (m : Manifest)
      → read_manifest zoned file ≡ ok (some m)
      → IsTrusted zoned m
  unfolding read_manifest
  read_manifest-IsTrusted absent m h = ground arith
  read_manifest-IsTrusted undecodable m h = ground arith
  read_manifest-IsTrusted (decoded p) m h =
      let (n, parsed, same) = bind-ok (parse_manifest zoned p) (λ x. ok (some x)) (some m) h in
      let e : n ≡ m = ground arith in rw (sym e) (parse_manifest-IsTrusted p n parsed)
