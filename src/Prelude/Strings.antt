-- ===== src/Prelude/Strings.antt =====
-- What the modules use of Rust's `str`, on texts by their characters. A character is compared by
-- its code point.
use Prim.Native.Nat.{ℕ, ◌+◌, ◌*◌, ◌-◌}
use Prim.Native.Char.{Char, code}
use Prim.Native.String.{String, ◌++◌ as ◌<>◌}
use mathlib.Core.Bool.{Bool, true, false, ◌&&◌, ◌||◌}
use mathlib.Core.List.{List, [], ◌∷◌}
use mathlib.Core.Option.{Option, none, some}
use text.Mathlib.Text.{◌==◌ as str_eq}
use procurator.Prelude.Tests.{ltb, leb, ◌==◌, if◌then◌else◌}

-- `strip_prefix`
unfoldable pub strip_prefix : String → String → Option String
strip_prefix s String.[] = some s
strip_prefix String.[] (String.◌∷◌ d p) = none
strip_prefix (String.◌∷◌ c s) (String.◌∷◌ d p) =
    let rest = strip_prefix s p in if code c == code d then rest else none

unfoldable pub is_some {ℓ} : {A : Type ℓ} → Option A → Bool
is_some none = false
is_some (some a) = true

abbrev pub has_prefix : String → String → Bool
has_prefix s p = is_some (strip_prefix s p)

-- `contains` of a text.
unfoldable pub contains : String → String → Bool
contains String.[] p = has_prefix String.[] p
contains (String.◌∷◌ c s) p = has_prefix (String.◌∷◌ c s) p || contains s p

-- `contains` of a character.
unfoldable pub has_char : ℕ → String → Bool
has_char x String.[] = false
has_char x (String.◌∷◌ c s) = (code c == x) || has_char x s

unfoldable pub ends_with : String → String → Bool
ends_with String.[] p = str_eq String.[] p
ends_with (String.◌∷◌ c s) p = str_eq (String.◌∷◌ c s) p || ends_with s p

-- `strip_suffix`
unfoldable pub strip_suffix : String → String → Option String
strip_suffix String.[] p = if str_eq String.[] p then some String.[] else none
strip_suffix (String.◌∷◌ c s) p =
    let rest = strip_suffix s p in
    if str_eq (String.◌∷◌ c s) p
    then some String.[]
    else elim rest [ none ↦ none | some r ↦ some (String.◌∷◌ c r) ]

-- What stands behind the first place of a text: `find` and a slice behind it.
unfoldable pub after : String → String → Option String
after String.[] p = strip_prefix String.[] p
after (String.◌∷◌ c s) p =
    let rest = after s p in elim (strip_prefix (String.◌∷◌ c s) p) [ some r ↦ some r | none ↦ rest ]

-- `split_once` at a character.
unfoldable pub split_once : ℕ → String → Option (String × String)
split_once x String.[] = none
split_once x (String.◌∷◌ c s) =
    let rest = split_once x s in
    if code c == x
    then some (String.[], s)
    else elim rest [ none ↦ none | some (a, b) ↦ some (String.◌∷◌ c a, b) ]

-- The parts before and behind the last place of a character: `rfind` and two slices.
unfoldable pub rsplit_once : ℕ → String → Option (String × String)
rsplit_once x String.[] = none
rsplit_once x (String.◌∷◌ c s) = elim (rsplit_once x s) [
  | some (a, b) ↦ some (String.◌∷◌ c a, b)
  | none ↦ if code c == x then some (String.[], s) else none
]

-- A character before the first part.
unfoldable pub onto_first : Char → List String → List String
onto_first c [] = String.◌∷◌ c String.[] ∷ []
onto_first c (s ∷ ss) = String.◌∷◌ c s ∷ ss

-- `split` at a character: one part more than there are such characters.
unfoldable pub split : ℕ → String → List String
split x String.[] = String.[] ∷ []
split x (String.◌∷◌ c s) =
    let rest = split x s in if code c == x then String.[] ∷ rest else onto_first c rest

-- `split(x).next()`: what stands before the first such character.
unfoldable pub before : ℕ → String → String
before x String.[] = String.[]
before x (String.◌∷◌ c s) =
    let rest = before x s in if code c == x then String.[] else String.◌∷◌ c rest

-- `rsplit(x).next()`: what stands behind the last such character.
unfoldable pub after_last : ℕ → String → String
after_last x s = elim (rsplit_once x s) [ some (a, b) ↦ b | none ↦ s ]

-- `char::is_whitespace`
unfoldable pub is_whitespace : ℕ → Bool
is_whitespace c =
    (leb 9 c && leb c 13)
    || (c == 32)
    || (c == 133)
    || (c == 160)
    || (c == 5760)
    || (leb 8192 c && leb c 8202)
    || (c == 8232)
    || (c == 8233)
    || (c == 8239)
    || (c == 8287)
    || (c == 12288)

unfoldable pub trim_start : String → String
trim_start String.[] = String.[]
trim_start (String.◌∷◌ c s) =
    let rest = trim_start s in if is_whitespace (code c) then rest else String.◌∷◌ c s

unfoldable pub trim_end : String → String
trim_end String.[] = String.[]
trim_end (String.◌∷◌ c s) =
    let rest = trim_end s in
    if is_whitespace (code c) && str_eq rest String.[] then String.[] else String.◌∷◌ c rest

abbrev pub trim : String → String
trim s = trim_end (trim_start s)

-- The parts that are not empty.
unfoldable pub non_empty_parts : List String → List String
non_empty_parts [] = []
non_empty_parts (s ∷ ss) =
    let rest = non_empty_parts ss in if str_eq s String.[] then rest else s ∷ rest

unfoldable pub split_at_spaces : String → List String
split_at_spaces String.[] = String.[] ∷ []
split_at_spaces (String.◌∷◌ c s) =
    let rest = split_at_spaces s in
    if is_whitespace (code c) then String.[] ∷ rest else onto_first c rest

abbrev pub split_whitespace : String → List String
split_whitespace s = non_empty_parts (split_at_spaces s)

-- A carriage return at the end of a line is no part of it.
unfoldable pub chomp : String → String
chomp String.[] = String.[]
chomp (String.◌∷◌ c s) =
    let rest = chomp s in
    if (code c == 13) && str_eq s String.[] then String.[] else String.◌∷◌ c rest

-- The last part of a split at line ends, if it is empty, is no line. Only a line that ends in a
-- line end loses a carriage return.
unfoldable pub as_lines : List String → List String
as_lines [] = []
as_lines (s ∷ []) = if str_eq s String.[] then [] else s ∷ []
as_lines (s ∷ t ∷ rest) = chomp s ∷ as_lines (t ∷ rest)

abbrev pub lines : String → List String
lines s = as_lines (split 10 s)

-- `join`
unfoldable pub join_with : String → List String → String
join_with sep [] = ""
join_with sep (s ∷ ss) = elim ss [ [] ↦ s | t ∷ ts ↦ s <> (sep <> join_with sep ss) ]

unfoldable pub one_of : String → List String → Bool
one_of s [] = false
one_of s (t ∷ ts) = str_eq s t || one_of s ts

-- The number that decimal digits spell behind a number, if all are digits.
unfoldable pub decimal : ℕ → String → Option ℕ
decimal n String.[] = some n
decimal n (String.◌∷◌ c s) =
    let rest = decimal (n * 10 + (code c - b'0')) s in
    if leb b'0' (code c) && leb (code c) b'9' then rest else none

-- `parse` of an unsigned number below a bound: a `+` may stand before its digits.
unfoldable pub below : ℕ → Option ℕ → Option ℕ
below bound none = none
below bound (some n) = if ltb n bound then some n else none

unfoldable pub parse_unsigned : ℕ → String → Option ℕ
parse_unsigned bound String.[] = none
parse_unsigned bound (String.◌∷◌ c s) =
    if code c == b'+'
    then (if str_eq s String.[] then none else below bound (decimal 0 s))
    else below bound (decimal 0 (String.◌∷◌ c s))

-- `len_utf8`
unfoldable pub len_utf8 : ℕ → ℕ
len_utf8 c = if ltb c 128 then 1 else if ltb c 2048 then 2 else if ltb c 65536 then 3 else 4

-- `find` of a text: the bytes before its first place.
unfoldable pub find : String → String → Option ℕ
find p String.[] = if has_prefix String.[] p then some 0 else none
find p (String.◌∷◌ c s) =
    let rest = find p s in
    if has_prefix (String.◌∷◌ c s) p
    then some 0
    else elim rest [ some n ↦ some (len_utf8 (code c) + n) | none ↦ none ]

-- The slice of a text from a byte on; `none` stands for the panic when there is no such byte, or it
-- is inside of a character.
unfoldable pub slice_from : ℕ → String → Option String
slice_from n String.[] = if n == 0 then some String.[] else none
slice_from n (String.◌∷◌ c s) =
    let rest = slice_from (n - len_utf8 (code c)) s in
    if n == 0 then some (String.◌∷◌ c s) else if ltb n (len_utf8 (code c)) then none else rest

-- `cmp` of texts, by code points.
unfoldable pub text_leb : String → String → Bool
text_leb String.[] t = true
text_leb (String.◌∷◌ c s) String.[] = false
text_leb (String.◌∷◌ c s) (String.◌∷◌ d t) =
    let rest = text_leb s t in
    if ltb (code c) (code d) then true else if code c == code d then rest else false
