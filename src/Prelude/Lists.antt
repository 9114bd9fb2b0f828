-- ===== src/Prelude/Lists.antt =====
-- Lists: lengths and prefixes over the native numbers, and Boolean searches that run.
use Prim.Native.Nat.{ℕ, zero, suc, ◌+◌}
use mathlib.Core.Path.{◌≡◌, refl, sym, ◌∙◌}
use mathlib.Core.Bool.{Bool, true, false, ◌&&◌, ◌||◌}
use mathlib.Core.List.{List, [], ◌∷◌, ◌++◌, append-nil, append_assoc}
use native.Mathlib.Omega.{arith}
use northgate_rmm.Prelude.Tests.{Eq, ◌==◌, if◌then◌else◌}

module _ {ℓ} {A : Type ℓ} where
  abbrev pub length : List A → ℕ
  length [] = 0
  length (x ∷ xs) = suc (length xs)

  abbrev pub take : ℕ → List A → List A
  take zero xs = []
  take (suc n) [] = []
  take (suc n) (x ∷ xs) = x ∷ take n xs

  abbrev pub keep_if : (A → Bool) → List A → List A
  keep_if p [] = []
  keep_if p (x ∷ xs) = let rest = keep_if p xs in if p x then x ∷ rest else rest

  abbrev pub any : (A → Bool) → List A → Bool
  any p [] = false
  any p (x ∷ xs) = p x || any p xs

  abbrev pub all : (A → Bool) → List A → Bool
  all p [] = true
  all p (x ∷ xs) = p x && all p xs

  -- `ys` is `xs` with something added at its end.
  pub record Extends (xs ys : List A) : Type ℓ where
    pub added : List A
    pub eq : ys ≡ xs ++ added

  pub Extends-refl : (xs : List A) → Extends xs xs
  Extends-refl xs = record { added = []; eq = sym (append-nil xs) }

  pub Extends-eq : (xs : List A) {ys : List A} → ys ≡ xs → Extends xs ys
  Extends-eq xs e = record { added = []; eq = e ∙ sym (append-nil xs) }

  pub Extends-append : (xs ys : List A) → Extends xs (xs ++ ys)
  Extends-append xs ys = record { added = ys; eq = refl }

  pub Extends-trans : {xs ys zs : List A} → Extends xs ys → Extends ys zs → Extends xs zs
  Extends-trans {xs} p q = record {
    added = p.added ++ q.added;
    eq = cc (p.eq, q.eq, append_assoc xs p.added q.added);
  }

  pub length-append : (xs ys : List A) → length (xs ++ ys) ≡ length xs + length ys
  length-append [] ys = omega arith
  length-append (x ∷ xs) ys = omega (arith, length-append xs ys)

module _ {ℓ} {A : Type ℓ} ⦃e : Eq A⦄ where
  -- `x in xs`
  unfoldable pub member : A → List A → Bool
  member x [] = false
  member x (y ∷ ys) = (y == x) || member x ys

  -- `s.add(x)`, of a set that is listed without repetition
  unfoldable pub add : A → List A → List A
  unfolding member
  add x s = if member x s then s else x ∷ s

  pub member-append : (x : A) (xs ys : List A) → member x (xs ++ ys) ≡ (member x xs || member x ys)
  unfolding member
  member-append x [] ys = refl
  member-append x (y ∷ xs) ys = ground (arith, member-append x xs ys)

  pub member-add :
      (x y : A) (s : List A) → member y (add x s) ≡ (if x == y then true else member y s)
  unfolding add
  member-add x y s = ground (arith, e.agrees x y)

  pub member-add_self : (x : A) (s : List A) → member x (add x s) ≡ true
  member-add_self x s = ground (arith, member-add x x s, e.agrees x x)

  pub member-add_mono : (x y : A) (s : List A) → member y s ≡ true → member y (add x s) ≡ true
  member-add_mono x y s h = ground (arith, member-add x y s)

module _ {ℓ κ} {A : Type ℓ} where
  -- Every item satisfies `P`.
  abbrev pub All : (A → Type κ) → List A → Type κ
  All P [] = Unit
  All P (x ∷ xs) = P x × All P xs

  -- Every earlier item stands in `R` to every later one.
  abbrev pub AllPairs : (A → A → Type κ) → List A → Type κ
  AllPairs R [] = Unit
  AllPairs R (x ∷ xs) = All (R x) xs × AllPairs R xs

  pub All-append : (P : A → Type κ) (xs ys : List A) → All P xs → All P ys → All P (xs ++ ys)
  All-append P [] ys hx hy = hy
  All-append P (x ∷ xs) ys hx hy = (hx.0, All-append P xs ys hx.1 hy)

  pub AllPairs-append :
      (R : A → A → Type κ) (xs : List A) (y : A)
      → AllPairs R xs
      → All (λ x. R x y) xs
      → AllPairs R (xs ++ y ∷ [])
  AllPairs-append R [] y hx hy = (tt, tt)
  AllPairs-append R (x ∷ xs) y hx hy =
      (All-append (R x) xs (y ∷ []) hx.0 (hy.0, tt), AllPairs-append R xs y hx.1 hy.1)

pub All-map {ℓ κ ν} :
    {A : Type ℓ} (P : A → Type κ) (Q : A → Type ν) (xs : List A)
    → ((x : A) → P x → Q x)
    → All P xs
    → All Q xs
All-map P Q [] f h = tt
All-map P Q (x ∷ xs) f h = (f x h.0, All-map P Q xs f h.1)

pub All-zip {ℓ κ ν} :
    {A : Type ℓ} (P : A → Type κ) (Q : A → Type ν) (xs : List A)
    → All P xs
    → All Q xs
    → All (λ x. P x × Q x) xs
All-zip P Q [] hp hq = tt
All-zip P Q (x ∷ xs) hp hq = ((hp.0, hq.0), All-zip P Q xs hp.1 hq.1)

pub All-eq {ℓ κ} : {A : Type ℓ} (P : A → Type κ) {xs ys : List A} → ys ≡ xs → All P xs → All P ys
All-eq P e h = rw e h

pub AllPairs-eq {ℓ κ} :
    {A : Type ℓ} (R : A → A → Type κ) {xs ys : List A} → ys ≡ xs → AllPairs R xs → AllPairs R ys
AllPairs-eq R e h = rw e h
