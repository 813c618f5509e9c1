-- ===== src/Cache/Parts.antt =====
-- Texts that are put together, and taken apart again by the handlers.
use procurator.Prelude.{
  ℕ, suc, String, ◌<>◌, ◌+◌, ◌≡◌, refl, sym, ap, ◌∙◌, true, false, none, some, List, [], ◌∷◌,
  str_eq, eq_iff, ◌==◌, arith, Bool-cases, ◌⊎◌, inl, inr, ◌≢◌,
}
use Prim.Native.Char.{Char, code}
use text.Mathlib.TextEquality.{codes_equal}
use text.Mathlib.TextLemmas.{nil-append, cons-append}
use procurator.Prelude.Strings.{strip_suffix, rsplit_once, split, onto_first, has_char}

List-cases {ℓ} : {A : Type ℓ} (xs : List A) → (xs ≡ []) ⊎ ((x : A) × (ys : List A) × (xs ≡ x ∷ ys))
List-cases [] = inl refl
List-cases (x ∷ xs) = inr (x, xs, refl)

chars : String → ℕ
chars String.[] = 0
chars (String.◌∷◌ c s) = suc (chars s)

chars-append : (s t : String) → chars (s <> t) ≡ chars s + chars t
unfolding chars
chars-append String.[] t = omega (arith, ap chars (nil-append t))
chars-append (String.◌∷◌ c s) t = omega (arith, ap chars (cons-append c s t), chars-append s t)

longer : (c : Char) (s p : String) → str_eq (String.◌∷◌ c (s <> p)) p ≡ false
unfolding chars
longer c s p = elim (Bool-cases (str_eq (String.◌∷◌ c (s <> p)) p)) [
  | inr e ↦ e
  | inl e ↦
      absurd (omega (arith, ap chars ((eq_iff (String.◌∷◌ c (s <> p)) p).0 e), chars-append s p))
]

strip_suffix_self : (p : String) → strip_suffix p p ≡ some ""
unfolding strip_suffix
strip_suffix_self String.[] = refl
strip_suffix_self (String.◌∷◌ c p) = ground (arith, eq_iff (String.◌∷◌ c p) (String.◌∷◌ c p))

strip_suffix_longer :
    (c : Char) (s p : String)
    → strip_suffix (s <> p) p ≡ some s
    → strip_suffix (String.◌∷◌ c (s <> p)) p ≡ some (String.◌∷◌ c s)
unfolding strip_suffix
strip_suffix_longer c s p h = ground (arith, longer c s p)

pub strip_suffix-append : (s p : String) → strip_suffix (s <> p) p ≡ some s
strip_suffix-append String.[] p = rw (nil-append p) (strip_suffix_self p)
strip_suffix-append (String.◌∷◌ c s) p =
    rw (cons-append c s p) (strip_suffix_longer c s p (strip_suffix-append s p))

rsplit_once-none : (x : ℕ) (s : String) → has_char x s ≡ false → rsplit_once x s ≡ none
unfolding rsplit_once has_char
rsplit_once-none x String.[] h = refl
rsplit_once-none x (String.◌∷◌ c s) h = ground (arith, rsplit_once-none x s)

rsplit_once_first :
    (c : Char) (t : String)
    → has_char (code c) t ≡ false
    → rsplit_once (code c) (String.◌∷◌ c t) ≡ some ("", t)
unfolding rsplit_once
rsplit_once_first c t h = ground (arith, rsplit_once-none (code c) t)

rsplit_once_step :
    (x : ℕ) (d : Char) (s a b : String)
    → rsplit_once x s ≡ some (a, b)
    → rsplit_once x (String.◌∷◌ d s) ≡ some (String.◌∷◌ d a, b)
unfolding rsplit_once
rsplit_once_step x d s a b h = ground arith

pub rsplit_once-append :
    (c : Char) (s t : String)
    → has_char (code c) t ≡ false
    → rsplit_once (code c) (s <> String.◌∷◌ c t) ≡ some (s, t)
rsplit_once-append c String.[] t h = rw (nil-append (String.◌∷◌ c t)) (rsplit_once_first c t h)
rsplit_once-append c (String.◌∷◌ d s) t h =
    rw (cons-append d s (String.◌∷◌ c t))
      (rsplit_once_step (code c) d (s <> String.◌∷◌ c t) s t (rsplit_once-append c s t h))

onto_first_one :
    (d : Char) (ps : List String) (a : String)
    → onto_first d ps ≡ a ∷ []
    → ((ps ≡ []) ⊎ ((p : String) × (ps ≡ p ∷ []) × (a ≡ String.◌∷◌ d p)))
unfolding onto_first
onto_first_one d [] a h = inl refl
onto_first_one d (p ∷ ps) a h = inr (p, ground arith, ground arith)

onto_first_two :
    (d : Char) (ps : List String) (a b : String)
    → onto_first d ps ≡ a ∷ (b ∷ [])
    → (p : String) × (ps ≡ p ∷ (b ∷ [])) × (a ≡ String.◌∷◌ d p)
unfolding onto_first
onto_first_two d [] a b h = absurd (ground arith)
onto_first_two d (p ∷ ps) a b h = (p, ground arith, ground arith)

split_some : (x : ℕ) (s : String) → split x s ≢ []
unfolding split onto_first
split_some x String.[] h = ground arith
split_some x (String.◌∷◌ d s) h = elim (List-cases (split x s)) [
  | inl e ↦ ground arith
  | inr (p, ps, e) ↦ ground arith
]

split_same :
    (x : ℕ) (d : Char) (s : String)
    → (code d == x) ≡ true
    → split x (String.◌∷◌ d s) ≡ "" ∷ split x s
unfolding split
split_same x d s e = ground arith

split_other :
    (x : ℕ) (d : Char) (s : String)
    → (code d == x) ≡ false
    → split x (String.◌∷◌ d s) ≡ onto_first d (split x s)
unfolding split
split_other x d s e = ground arith

split_one : (x : ℕ) (s a : String) → split x s ≡ a ∷ [] → s ≡ a
unfolding split
split_one x String.[] a h = ground arith
split_one x (String.◌∷◌ d s) a h = elim (Bool-cases (code d == x)) [
  | inl e ↦ absurd (ground (arith, split_same x d s e, split_some x s))
  | inr e ↦ elim (onto_first_one d (split x s) a (sym (split_other x d s e) ∙ h)) [
    | inl none_left ↦ absurd (split_some x s none_left)
    | inr (p, parts, same) ↦ cc (split_one x s p parts, same)
  ]
]

equal_codes : (c d : Char) → (code d == code c) ≡ true → d ≡ c
equal_codes c d h = codes_equal d c (ground arith)

pub split_two :
    (c : Char) (s a b : String) → split (code c) s ≡ a ∷ (b ∷ []) → s ≡ a <> String.◌∷◌ c b
unfolding split
split_two c String.[] a b h = absurd (ground arith)
split_two c (String.◌∷◌ d s) a b h = elim (Bool-cases (code d == code c)) [
  | inl e ↦
      let parts : "" ∷ split (code c) s ≡ a ∷ (b ∷ []) = sym (split_same (code c) d s e) ∙ h in
      let rest : split (code c) s ≡ b ∷ [] = ground arith in
      let first : a ≡ "" = ground arith in
      cc (first, split_one (code c) s b rest, equal_codes c d e, nil-append (String.◌∷◌ c b))
  | inr e ↦
      let (p, parts, same) =
        onto_first_two d (split (code c) s) a b (sym (split_other (code c) d s e) ∙ h) in
      cc (split_two c s p b parts, same, cons-append d p (String.◌∷◌ c b))
]
