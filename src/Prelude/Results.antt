-- ===== src/Prelude/Results.antt =====
-- Rust's `Result`, and effects that may fail: an action on a world `W` gives a result and the
-- next world, whatever the result is. The `?` operator is `>>=`.
use mathlib.Core.Path.{◌≡◌, refl}
use mathlib.Core.Logic.{◌⊎◌, inl, inr}
use mathlib.Core.Option.{Option, none, some}

pub data Result {ℓ κ} (A : Type ℓ) (E : Type κ) : Type (ℓ ⊔ κ) where
  ok : A → Result A E
  err : E → Result A E

pub Result-cases {ℓ κ} :
    {A : Type ℓ} {E : Type κ} (r : Result A E) → ((a : A) × (r ≡ ok a)) ⊎ ((e : E) × (r ≡ err e))
Result-cases (ok a) = inl (a, refl)
Result-cases (err e) = inr (e, refl)

abbrev pub map_err {ℓ κ μ} :
    {A : Type ℓ} {E : Type κ} {F : Type μ} → (E → F) → Result A E → Result A F
map_err f (ok a) = ok a
map_err f (err e) = err (f e)

abbrev pub map_ok {ℓ κ μ} :
    {A : Type ℓ} {B : Type κ} {E : Type μ} → (A → B) → Result A E → Result B E
map_ok f (ok a) = ok (f a)
map_ok f (err e) = err e

abbrev pub and_then {ℓ κ μ} :
    {A : Type ℓ} {B : Type κ} {E : Type μ} → Result A E → (A → Result B E) → Result B E
and_then (ok a) f = f a
and_then (err e) f = err e

abbrev pub ok_or {ℓ κ} : {A : Type ℓ} {E : Type κ} → Option A → E → Result A E
ok_or none e = err e
ok_or (some a) e = ok a

abbrev pub Eff : Type 0 → Type 0 → Type 0 → Type 0
Eff W E A = W → Result A E × W

module _ {W E : Type 0} where
  abbrev pub pure : {A : Type 0} → A → Eff W E A
  pure a w = (ok a, w)

  abbrev pub fail : {A : Type 0} → E → Eff W E A
  fail e w = (err e, w)

  abbrev pub gets : {A : Type 0} → (W → A) → Eff W E A
  gets f w = (ok (f w), w)

  abbrev pub modify : (W → W) → Eff W E (Unit {0})
  modify f w = (ok tt, f w)

  abbrev pub resume : {A B : Type 0} → Result A E → (A → Eff W E B) → Eff W E B
  resume (ok a) f w = f a w
  resume (err e) f w = (err e, w)

  infixl 5 ◌>>=◌ ◌>>◌
  abbrev pub ◌>>=◌ : {A B : Type 0} → Eff W E A → (A → Eff W E B) → Eff W E B
  ◌>>=◌ m f w = resume (m w).0 f (m w).1

  abbrev pub ◌>>◌ : {B : Type 0} → Eff W E (Unit {0}) → Eff W E B → Eff W E B
  ◌>>◌ m k w = resume (m w).0 (λ _. k) (m w).1

module _ {W E F A : Type 0} where
  abbrev pub map_error : (E → F) → Eff W E A → Eff W F A
  map_error f m w = (map_err f (m w).0, (m w).1)

  -- A call whose error is only logged: `if let Err(e) = … { warn!(…) }`.
  abbrev pub best_effort : Eff W E A → Eff W F (Unit {0})
  best_effort m w = (ok tt, (m w).1)

-- The rule of `?`: what holds of every error, and after every continuation, holds of the chain.
pub resume_post :
    {W E A B : Type 0} (Q : Result B E → Type 0) (r : Result A E) (f : A → Eff W E B) (w : W)
    → ((e : E) → Q (err e))
    → ((a : A) (w' : W) → Q (f a w').0)
    → Q (resume r f w).0
resume_post Q (ok a) f w failed next = next a w
resume_post Q (err e) f w failed next = failed e

-- A property of the world that each step keeps is kept by the chain.
pub resume_keeps :
    {W E A B : Type 0} (Q : W → Type 0) (r : Result A E) (f : A → Eff W E B) (w : W)
    → Q w
    → ((a : A) → Q w → Q (f a w).1)
    → Q (resume r f w).1
resume_keeps Q (ok a) f w now next = next a now
resume_keeps Q (err e) f w now next = now

-- The rule of `?` with the world: what every error gives, and what every continuation gives.
pub resume_rule :
    {W E A B : Type 0} (Q : Result B E → W → Type 0) (r : Result A E) (f : A → Eff W E B) (w : W)
    → ((e : E) → r ≡ err e → Q (err e) w)
    → ((a : A) → r ≡ ok a → Q (f a w).0 (f a w).1)
    → Q (resume r f w).0 (resume r f w).1
resume_rule Q (ok a) f w failed next = next a refl
resume_rule Q (err e) f w failed next = failed e refl
