-- ===== src/Autonix/Version.antt =====
-- autonix/src/mapping/version.rs: the parser of semantic versions, over the code points that are
-- left of the input (the `Peekable<Chars>`), and their `Display`.
pub mod Scan
pub mod Grammar
pub mod Numbers
pub mod Identifiers
pub mod Accepts
pub mod Printing
use procurator.Prelude.{
  ℕ, zero, suc, ◌+◌, ◌-◌, ◌*◌, ◌/◌, ◌%◌, ◌<◌, String, Bool, true, false, ◌&&◌, ◌||◌, Option, none,
  some, List, [], ◌∷◌, ◌++◌, ltb, leb, ◌==◌, if◌then◌else◌, length, Result, ok, err, Eff, pure,
  fail, ◌>>=◌, ◌>>◌, codes,
}

-- A text, by its code points.
abbrev pub Text : Type 0
Text = List ℕ

-- `u16` numbers.
pub record Core : Type 0 where
  pub major : ℕ
  pub minor : ℕ
  pub patch : ℕ

-- `PreRelease` and `Build` are lists of identifiers.
pub data SemVerVersion : Type 0 where
  valid_core : Core → SemVerVersion
  pre_release : Core → List Text → SemVerVersion
  build : Core → List Text → SemVerVersion
  pre_release_and_build : Core → List Text → List Text → SemVerVersion
  unknown : Text → SemVerVersion

pub data Error : Type 0 where
  invalid_format : Error
  leading_zero : Error
  trailing_characters : Error

abbrev pub Parser : Type 0 → Type 0
Parser A = Eff Text Error A

-- `is_digit(10)`
unfoldable pub is_digit : ℕ → Bool
is_digit c = leb b'0' c && leb c b'9'

unfoldable pub is_identifier : ℕ → Bool
is_identifier c =
    is_digit c || (leb b'a' c && leb c b'z') || (leb b'A' c && leb c b'Z') || (c == b'-')

-- `peek().is_some_and(p)`
unfoldable pub starts : (ℕ → Bool) → Text → Bool
starts p [] = false
starts p (c ∷ cs) = p c

-- What the loop `while let Some(ch) = input.next_if(p)` collects, and what it leaves.
unfoldable pub take_while : (ℕ → Bool) → Text → Text
take_while p [] = []
take_while p (c ∷ cs) = let rest = take_while p cs in if p c then c ∷ rest else []

unfoldable pub drop_while : (ℕ → Bool) → Text → Text
drop_while p [] = []
drop_while p (c ∷ cs) = let rest = drop_while p cs in if p c then rest else c ∷ cs

-- The number that digits spell, behind a number that is read already.
unfoldable pub number : ℕ → Text → ℕ
number n [] = n
number n (d ∷ ds) = number (n * 10 + (d - b'0')) ds

-- `parse::<u16>()` of digits.
unfoldable pub parse_u16 : Text → Result ℕ Error
parse_u16 ds = if ltb (number 0 ds) 65536 then ok (number 0 ds) else err invalid_format

unfoldable pub numeric_identifier : Parser ℕ
numeric_identifier [] = (err invalid_format, [])
numeric_identifier (c ∷ cs) =
    if c == b'0'
    then (if starts is_digit cs then (err leading_zero, cs) else (ok 0, cs))
    else if is_digit c
    then (parse_u16 (c ∷ take_while is_digit cs), drop_while is_digit cs)
    else (err invalid_format, cs)

-- `if input.next().is_some_and(|c| c != '.') { return Err(…) }`
unfoldable pub dot : Parser (Unit {0})
dot [] = (ok tt, [])
dot (c ∷ cs) = if c == b'.' then (ok tt, cs) else (err invalid_format, cs)

unfoldable pub version_core : Parser Core
version_core = do
  major ← numeric_identifier
  dot
  minor ← numeric_identifier
  dot
  patch ← numeric_identifier
  pure (record { major = major; minor = minor; patch = patch })

unfoldable pub non_empty : Text → Result Text Error
non_empty [] = err invalid_format
non_empty (c ∷ cs) = ok (c ∷ cs)

unfoldable pub alphanumeric_identifier : Parser Text
alphanumeric_identifier cs = (non_empty (take_while is_identifier cs), drop_while is_identifier cs)

-- The loop of `dot_separated_identifiers`: each round takes a dot at least, so as many rounds as
-- there are characters left are enough.
unfoldable pub more_identifiers : ℕ → Parser (List Text)
more_identifiers zero cs = (ok [], cs)
more_identifiers (suc n) [] = (ok [], [])
more_identifiers (suc n) (c ∷ cs) =
    let again =
      (do
        identifier ← alphanumeric_identifier
        identifiers ← more_identifiers n
        pure (identifier ∷ identifiers))
        cs in
    if c == b'.' then again else (ok [], c ∷ cs)

unfoldable pub dot_separated_identifiers : Parser (List Text)
dot_separated_identifiers = do
  identifier ← alphanumeric_identifier
  identifiers ← (λ cs. more_identifiers (length cs) cs)
  pure (identifier ∷ identifiers)

-- A build is the end of a version.
unfoldable pub at_end : List Text → Parser (List Text)
at_end identifiers [] = (ok identifiers, [])
at_end identifiers (c ∷ cs) = (err trailing_characters, cs)

unfoldable pub parse_build : Parser (List Text)
parse_build = do identifiers ← dot_separated_identifiers; at_end identifiers

unfoldable pub after_pre_release : Core → List Text → Parser SemVerVersion
after_pre_release core pre [] = (ok (pre_release core pre), [])
after_pre_release core pre (c ∷ cs) =
    let with_build = (do b ← parse_build; pure (pre_release_and_build core pre b)) cs in
    if c == b'+' then with_build else (err trailing_characters, cs)

unfoldable pub after_core : Core → Parser SemVerVersion
after_core core [] = (ok (valid_core core), [])
after_core core (c ∷ cs) =
    let with_pre_release = (do pre ← dot_separated_identifiers; after_pre_release core pre) cs in
    let with_build = (do b ← parse_build; pure (build core b)) cs in
    if c == b'-'
    then with_pre_release
    else if c == b'+'
    then with_build
    else (err invalid_format, cs)

unfoldable pub valid_semver : Parser SemVerVersion
valid_semver = do core ← version_core; after_core core

unfoldable pub from_str : String → Result SemVerVersion Error
from_str s = (valid_semver (codes s)).0

-- `Display` of a `u16`: the digits of a number before a text, on fuel for five digits.
unfoldable pub digits : ℕ → ℕ → Text → Text
digits zero n acc = acc
digits (suc fuel) n acc =
    let more = digits fuel (n / 10) ((b'0' + n % 10) ∷ acc) in
    if ltb n 10 then (b'0' + n) ∷ acc else more

-- `join(".")`
unfoldable pub join : List Text → Text
join [] = []
join (i ∷ is) = elim is [ [] ↦ i | j ∷ js ↦ i ++ (b'.' ∷ join is) ]

unfoldable pub display_core : Core → Text
display_core c =
    digits 5 c.major [] ++ (b'.' ∷ (digits 5 c.minor [] ++ (b'.' ∷ digits 5 c.patch [])))

unfoldable pub display : SemVerVersion → Text
display (valid_core c) = display_core c
display (pre_release c p) = display_core c ++ (b'-' ∷ join p)
display (build c b) = display_core c ++ (b'+' ∷ join b)
display (pre_release_and_build c p b) = display_core c ++ (b'-' ∷ (join p ++ (b'+' ∷ join b)))
display (unknown s) = s
