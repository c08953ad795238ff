-- ===== src/Text.antt =====
-- What the program uses of Python's `str`: `strip`, truthiness, `len`, concatenation and slices.
use Prim.Native.Char.{Char, code}
use rag_support_assistant.Prelude.{
  ℕ, zero, suc, ◌+◌, ◌≤◌, ◌≡◌, refl, String, Bool, true, false, ◌&&◌, ◌||◌, leb, ◌==◌,
  if◌then◌else◌, arith, Option, none, some, List, [], ◌∷◌,
}

-- the code points that `str.strip` removes and `str.isspace` accepts
is_space : ℕ → Bool
is_space c =
    (leb 9 c && leb c 13)
    || (leb 28 c && leb c 32)
    || c == 0x85
    || c == 0xA0
    || c == 0x1680
    || (leb 0x2000 c && leb c 0x200A)
    || c == 0x2028
    || c == 0x2029
    || c == 0x202F
    || c == 0x205F
    || c == 0x3000

unfoldable pub lstrip : String → String
unfolding is_space
lstrip String.[] = String.[]
lstrip (String.◌∷◌ c s) = if is_space (code c) then lstrip s else String.◌∷◌ c s

-- `c` before a text that is stripped on the right already
keep_unless_blank : Char → String → String
unfolding is_space
keep_unless_blank c String.[] = if is_space (code c) then String.[] else String.◌∷◌ c String.[]
keep_unless_blank c (String.◌∷◌ d s) = String.◌∷◌ c (String.◌∷◌ d s)

unfoldable pub rstrip : String → String
unfolding keep_unless_blank
rstrip String.[] = String.[]
rstrip (String.◌∷◌ c s) = keep_unless_blank c (rstrip s)

unfoldable pub strip : String → String
unfolding lstrip rstrip
strip s = rstrip (lstrip s)

-- `not s`
abbrev pub is_empty : String → Bool
is_empty String.[] = true
is_empty (String.◌∷◌ c s) = false

-- `s or default`
abbrev pub or_else : String → String → String
or_else String.[] d = d
or_else (String.◌∷◌ c s) d = String.◌∷◌ c s

-- `s or None`
abbrev pub or_none : String → Option String
or_none String.[] = none
or_none (String.◌∷◌ c s) = some (String.◌∷◌ c s)

abbrev pub length : String → ℕ
length String.[] = 0
length (String.◌∷◌ c s) = suc (length s)

-- `s[n:]`
abbrev pub drop : ℕ → String → String
drop zero s = s
drop (suc n) String.[] = String.[]
drop (suc n) (String.◌∷◌ c s) = drop n s

-- `s + t`
abbrev pub append : String → String → String
append String.[] t = t
append (String.◌∷◌ c s) t = String.◌∷◌ c (append s t)

-- `s.startswith(t)`
abbrev pub starts_with : String → String → Bool
starts_with s String.[] = true
starts_with String.[] (String.◌∷◌ d t) = false
starts_with (String.◌∷◌ c s) (String.◌∷◌ d t) = code c == code d && starts_with s t

-- `t in s`
abbrev pub is_part : String → String → Bool
is_part t String.[] = is_empty t
is_part t (String.◌∷◌ c s) = starts_with (String.◌∷◌ c s) t || is_part t s

-- the word read so far, if any, before the other words
abbrev flush : String → List String → List String
flush String.[] ws = ws
flush (String.◌∷◌ c s) ws = String.◌∷◌ c s ∷ ws

abbrev add_char : String → Char → String
add_char String.[] d = String.◌∷◌ d String.[]
add_char (String.◌∷◌ c s) d = String.◌∷◌ c (add_char s d)

-- `s.split()`, with the word read so far
unfoldable pub split_from : String → String → List String
unfolding is_space
split_from w String.[] = flush w []
split_from w (String.◌∷◌ c s) =
    let rest = split_from String.[] s in
    let longer = split_from (add_char w c) s in if is_space (code c) then flush w rest else longer

-- `separator.join(texts)`
abbrev pub join : String → List String → String
join separator [] = String.[]
join separator (s ∷ []) = s
join separator (s ∷ t ∷ ts) = append s (append separator (join separator (t ∷ ts)))

-- the part of a text after its first character with the code, if it has one
abbrev pub after_first : ℕ → String → Option String
after_first k String.[] = none
after_first k (String.◌∷◌ c s) = if code c == k then some s else after_first k s

-- `s.lstrip("- ")`
abbrev pub strip_marks : String → String
strip_marks String.[] = String.[]
strip_marks (String.◌∷◌ c s) =
    if code c == 45 || code c == 32 then strip_marks s else String.◌∷◌ c s

-- `s[:n]` followed by `t`
abbrev pub take_append : ℕ → String → String → String
take_append zero s t = t
take_append (suc n) String.[] t = t
take_append (suc n) (String.◌∷◌ c s) t = String.◌∷◌ c (take_append n s t)

pub length-take_append : (n : ℕ) (s t : String) → length (take_append n s t) ≤ n + length t
length-take_append zero s t = omega arith
length-take_append (suc n) String.[] t = omega arith
length-take_append (suc n) (String.◌∷◌ c s) t = omega (arith, length-take_append n s t)

strips : strip "  a b\n" ≡ "a b"
unfolding strip
strips = refl
