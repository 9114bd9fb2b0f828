-- ===== src/Prelude/Exec.antt =====
-- Methods that change an object and may raise. What was written before a raise stays written, so
-- the object comes back beside an error too.
use mathlib.Core.Path.{◌≡◌, refl, ap, ◌∙◌}
use mathlib.Core.Bool.{Bool, true, false}
use northgate_rmm.Prelude.Tests.{if◌then◌else◌}
use northgate_rmm.Prelude.Result.{Error, Result, ok, err}

abbrev pub Exec : Type 0 → Type 0 → Type 0
Exec S A = S → Result A × S

module _ {S A : Type 0} where
  abbrev pub pure : A → Exec S A
  pure a s = (ok a, s)

  abbrev pub raise : Error → Exec S A
  raise e s = (err e, s)

  abbrev pub lift : Result A → Exec S A
  lift r s = (r, s)

  abbrev pub gets : (S → A) → Exec S A
  gets f s = (ok (f s), s)

abbrev pub modify : {S : Type 0} → (S → S) → Exec S (Unit {0})
modify f s = (ok tt, f s)

-- What follows an action, from the action's result.
abbrev pub continue : {S A B : Type 0} → (A → Exec S B) → Result A × S → Result B × S
continue f (ok a, s) = f a s
continue f (err e, s) = (err e, s)

infixl 5 ◌>>=◌ ◌>>◌
unfoldable pub ◌>>=◌ : {S A B : Type 0} → Exec S A → (A → Exec S B) → Exec S B
◌>>=◌ m f s = continue f (m s)

abbrev pub ◌>>◌ : {S A B : Type 0} → Exec S A → Exec S B → Exec S B
m >> k = m >>= λ _. k

-- `if c: action`, where the action raises or only changes the object
unfoldable pub when : {S : Type 0} → Bool → Exec S (Unit {0}) → Exec S (Unit {0})
when c m s = if c then m s else (ok tt, s)

module _ {S A B : Type 0} (m : Exec S A) (f : A → Exec S B) (s : S) where
  -- A block goes on from the result of its first action, or ends with its error.
  pub bind-ok :
      {a : A} {s' : S} {r : Result B × S} → m s ≡ (ok a, s') → f a s' ≡ r → (m >>= f) s ≡ r
  unfolding ◌>>=◌
  bind-ok e k = ap (continue f) e ∙ k

  pub bind-err : {e : Error} {s' : S} → m s ≡ (err e, s') → (m >>= f) s ≡ (err e, s')
  unfolding ◌>>=◌
  bind-err e = ap (continue f) e

  pub bind-cases {ℓ} :
      (P : Result B × S → Type ℓ)
      → ((a : A) (s' : S) → m s ≡ (ok a, s') → P (f a s'))
      → ((e : Error) (s' : S) → m s ≡ (err e, s') → P (err e, s'))
      → P ((m >>= f) s)
  unfolding ◌>>=◌
  bind-cases P good bad = go (m s) refl
    where
      go : (r : Result A × S) → m s ≡ r → P (continue f r)
      go (ok a, s') e = good a s' e
      go (err x, s') e = bad x s' e

module _ {S B : Type 0} (m : Exec S (Unit {0})) (f : Unit {0} → Exec S B) (s : S) where
  pub when-hit : {b : Bool} {r : Result B × S} → b ≡ true → (m >>= f) s ≡ r → (when b m >>= f) s ≡ r
  unfolding when ◌>>=◌
  when-hit e k = ap (λ b. continue f (if b then m s else (ok tt, s))) e ∙ k

  pub when-miss : {b : Bool} {r : Result B × S} → b ≡ false → f tt s ≡ r → (when b m >>= f) s ≡ r
  unfolding when ◌>>=◌
  when-miss e k = ap (λ b. continue f (if b then m s else (ok tt, s))) e ∙ k

pub lift-ok :
    {S A B : Type 0} (r : Result A) (f : A → Exec S B) (s : S) {a : A} {t : Result B × S}
    → r ≡ ok a
    → f a s ≡ t
    → (lift r >>= f) s ≡ t
unfolding ◌>>=◌
lift-ok r f s e k = ap (λ x. continue f (x, s)) e ∙ k

-- A pure call that may raise, with the equation of its result.
pub lift-cases {ℓ} :
    {S A B : Type 0} (r : Result A) (f : A → Exec S B) (s : S) (P : Result B × S → Type ℓ)
    → ((a : A) → r ≡ ok a → P (f a s))
    → ((e : Error) → r ≡ err e → P (err e, s))
    → P ((lift r >>= f) s)
unfolding ◌>>=◌
lift-cases (ok a) f s P good bad = good a refl
lift-cases (err e) f s P good bad = bad e refl

-- Rules for a property of a block's result: a test that raises, and a pure call that may raise.
module _ {ℓ} {S B : Type 0} (P : Result B × S → Type ℓ) where
  pub raise_rule :
      (b : Bool) (e : Error) (k : Unit {0} → Exec S B) (s : S)
      → P (err e, s)
      → (b ≡ false → P (k tt s))
      → P ((when b (raise e) >>= k) s)
  unfolding when ◌>>=◌
  raise_rule true e k s hit miss = hit
  raise_rule false e k s hit miss = miss refl

  pub lift_rule :
      {A : Type 0} (r : Result A) (k : A → Exec S B) (s : S)
      → ((e : Error) → P (err e, s))
      → ((a : A) → r ≡ ok a → P (k a s))
      → P ((lift r >>= k) s)
  unfolding ◌>>=◌
  lift_rule (ok a) k s bad good = good a refl
  lift_rule (err e) k s bad good = bad e

  pub gets_rule :
      {A : Type 0} (g : S → A) (k : A → Exec S B) (s : S) → P (k (g s) s) → P ((gets g >>= k) s)
  unfolding ◌>>=◌
  gets_rule g k s h = h

  pub ok_rule :
      {A : Type 0} (m : Exec S A) (k : A → Exec S B) (s : S) {a : A} {s' : S}
      → m s ≡ (ok a, s')
      → P (k a s')
      → P ((m >>= k) s)
  ok_rule m k s e h = rw (bind-ok m k s e refl) h

  pub err_rule :
      {A : Type 0} (m : Exec S A) (k : A → Exec S B) (s : S) {e : Error} {s' : S}
      → m s ≡ (err e, s')
      → P (err e, s')
      → P ((m >>= k) s)
  err_rule m k s e h = rw (bind-err m k s e) h

  pub if_rule :
      (b : Bool) (m n : Exec S B) (s : S)
      → (b ≡ true → P (m s))
      → (b ≡ false → P (n s))
      → P ((if b then m else n) s)
  if_rule true m n s hit miss = hit refl
  if_rule false m n s hit miss = miss refl
