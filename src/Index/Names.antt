-- ===== src/Index/Names.antt =====
-- utils/tenant_naming.py, and the names of collections in vectordb/index_manifest.py and
-- vectordb/index_staging.py: which names are safe, how a tenant's identifier becomes a part of a
-- name, and the names of legacy and of staged collections. `digest` gives the first 16 hexadecimal
-- digits of the SHA-256 hash of a text.
use Prim.Native.Char.{Char, code}
use rag_support_assistant.Prelude.{
  ℕ, ◌+◌, ◌-◌, String, Bool, true, false, not, ◌&&◌, ◌||◌, List, [], ◌∷◌, leb, ◌==◌, if◌then◌else◌,
}
use rag_support_assistant.Text
use rag_support_assistant.Index.{
  Result, ok, raise, name_invalid, max_length_invalid, staging_invalid, contains, ◌>>=◌,
}
use rag_support_assistant.Index.Lock.{canonical}

-- `[0-9]`, `[a-z]`, `[A-Z]`, `[._-]`
abbrev pub is_digit : ℕ → Bool
is_digit c = leb 48 c && leb c 57

abbrev pub is_lower : ℕ → Bool
is_lower c = leb 97 c && leb c 122

abbrev pub is_upper : ℕ → Bool
is_upper c = leb 65 c && leb c 90

abbrev pub is_mark : ℕ → Bool
is_mark c = c == 46 || c == 95 || c == 45

-- `[a-z0-9]`, `[A-Za-z0-9]`, `[0-9a-f]`
abbrev pub is_small : ℕ → Bool
is_small c = is_digit c || is_lower c

abbrev pub is_alnum : ℕ → Bool
is_alnum c = is_digit c || is_lower c || is_upper c

abbrev pub is_hex : ℕ → Bool
is_hex c = is_digit c || (leb 97 c && leb c 102)

module _ (edge : ℕ → Bool) where
  -- a text that begins with marks and edges and ends with an edge: `(?:[edge._-]*[edge])`
  unfoldable pub ends : String → Bool
  ends String.[] = false
  ends (String.◌∷◌ c String.[]) = edge (code c)
  ends (String.◌∷◌ c (String.◌∷◌ d s)) =
      let rest = ends (String.◌∷◌ d s) in (edge (code c) || is_mark (code c)) && rest

  -- `^[edge](?:[edge._-]*[edge])?$`, matched in full
  unfoldable pub is_safe : String → Bool
  unfolding ends
  is_safe String.[] = false
  is_safe (String.◌∷◌ c s) = edge (code c) && ends (String.◌∷◌ c s)

abbrev pub all_hex : String → Bool
all_hex String.[] = true
all_hex (String.◌∷◌ c s) = is_hex (code c) && all_hex s

-- the text before the first full stop
abbrev pub stem : String → String
stem String.[] = String.[]
stem (String.◌∷◌ c s) = if code c == 46 then String.[] else String.◌∷◌ c (stem s)

abbrev pub reserved_stems : List String
reserved_stems =
    "con" ∷ "prn" ∷ "aux" ∷ "nul" ∷ "com1" ∷ "com2" ∷ "com3" ∷ "com4" ∷ "com5" ∷ "com6" ∷ "com7"
    ∷ "com8" ∷ "com9" ∷ "lpt1" ∷ "lpt2" ∷ "lpt3" ∷ "lpt4" ∷ "lpt5" ∷ "lpt6" ∷ "lpt7" ∷ "lpt8"
    ∷ "lpt9" ∷ []

-- `_WINDOWS_RESERVED_RE`, on a text of lower-case letters, digits and marks
abbrev pub is_reserved : String → Bool
is_reserved s = contains (stem s) reserved_stems

-- `re.sub(r"[^A-Za-z0-9._-]", "_", s)`
unfoldable pub slug_chars : String → String
slug_chars String.[] = String.[]
slug_chars (String.◌∷◌ c s) =
    let rest = slug_chars s in
    if is_alnum (code c) || is_mark (code c) then String.◌∷◌ c rest else Text.append "_" rest

-- `s.lstrip("._-")` and `s.rstrip("._-")`
unfoldable pub lstrip_marks : String → String
lstrip_marks String.[] = String.[]
lstrip_marks (String.◌∷◌ c s) =
    let rest = lstrip_marks s in if is_mark (code c) then rest else String.◌∷◌ c s

abbrev keep_unless_mark : Char → String → String
keep_unless_mark c String.[] = if is_mark (code c) then String.[] else String.◌∷◌ c String.[]
keep_unless_mark c (String.◌∷◌ d s) = String.◌∷◌ c (String.◌∷◌ d s)

unfoldable pub rstrip_marks : String → String
rstrip_marks String.[] = String.[]
rstrip_marks (String.◌∷◌ c s) = keep_unless_mark c (rstrip_marks s)

-- `_HASH_SEPARATOR` and the length of a suffix
abbrev pub suffix_length : ℕ
suffix_length = 18

abbrev pub max_name_length : ℕ
max_name_length = 63

-- the slug of an identifier, of at most `room` characters
unfoldable pub slug : String → ℕ → String
unfolding slug_chars lstrip_marks rstrip_marks
slug canon room =
    let cleaned = Text.or_else (rstrip_marks (lstrip_marks (slug_chars canon))) "tenant" in
    Text.or_else (rstrip_marks (Text.take_append room cleaned String.[])) "t"

-- `_validate_collection_name`, on a text
unfoldable pub validate_name : String → Result String
unfolding is_safe
validate_name name =
    if leb 1 (Text.length name) && leb (Text.length name) max_name_length
    then (if is_safe is_alnum name then ok name else raise name_invalid)
    else raise name_invalid

module _ (digest : String → String) where
  -- `physical_tenant_component`; a `ValueError` is `max_length_invalid`
  unfoldable pub physical_tenant_component : String → ℕ → Result String
  unfolding is_safe slug
  physical_tenant_component tenant_id max_length =
      let canon = canonical tenant_id in
      let suffix = Text.append "--" (digest canon) in
      if leb max_length 0
      then raise max_length_invalid
      else if leb (Text.length canon) max_length
          && is_safe is_small canon
          && not (is_reserved canon)
      then ok canon
      else if leb max_length (Text.length suffix)
      then raise max_length_invalid
      else ok (Text.append (slug canon (max_length - Text.length suffix)) suffix)

  module _ (prefix : String) where
    -- `_legacy_collection_name`; a room below zero is refused as one of zero
    unfoldable pub legacy_name : String → Result String
    unfolding physical_tenant_component
    legacy_name tenant_id =
        physical_tenant_component tenant_id (max_name_length - Text.length prefix - 1) >>= λ tenant.
        ok (Text.append prefix (Text.append "_" tenant))

    -- the room that `staged_collection_name` leaves for the tenant
    abbrev pub staged_room : ℕ
    staged_room = max_name_length - (Text.length prefix + 3) - 17

    abbrev pub staged_form : String → String → String
    staged_form candidate tenant =
        Text.append prefix (Text.append "-v-" (Text.append tenant (Text.append "-" candidate)))

    -- the last check of `staged_collection_name`
    abbrev pub checked_form : String → Result String
    checked_form name =
        if leb (Text.length name) max_name_length && is_safe is_alnum name
        then ok name
        else raise staging_invalid

    abbrev pub staged_of : String → Result String → Result String
    staged_of candidate (raise e) = raise staging_invalid
    staged_of candidate (ok tenant) = checked_form (staged_form candidate tenant)

    -- `staged_collection_name`, with the candidate that is given or was drawn
    unfoldable pub staged_name : String → String → Result String
    staged_name tenant_id candidate =
        if all_hex candidate && Text.length candidate == 16
        then staged_of candidate (physical_tenant_component tenant_id staged_room)
        else raise staging_invalid
