-- ===== src/Prelude/Sort/Laws.antt =====
-- Sorting by a natural number, and filters.
use Prim.Native.Nat.{ℕ, zero, suc, ◌≤◌}
use mathlib.Core.Path.{◌≡◌, refl, ap, sym, ◌∙◌}
use mathlib.Core.Logic.{◌≢◌, inl, inr}
use mathlib.Core.Bool.{Bool, true, false}
use mathlib.Core.List.{List, [], ◌∷◌, ◌++◌}
use native.Mathlib.Omega.{arith}
use northgate_rmm.Prelude.Tests.{leb, if◌then◌else◌, Bool-cases}
use northgate_rmm.Prelude.Lists.{All, AllPairs, All-map, keep_if, take}
use northgate_rmm.Prelude.Sort.{insert_by, sort_by}

module _ {A : Type 0} where
  pub keep-append :
      (p : A → Bool) (xs ys : List A) → keep_if p (xs ++ ys) ≡ keep_if p xs ++ keep_if p ys
  keep-append p [] ys = refl
  keep-append p (x ∷ xs) ys = ground (arith, keep-append p xs ys)

  pub keep_everything : (p : A → Bool) (xs : List A) → All (λ x. p x ≡ true) xs → keep_if p xs ≡ xs
  keep_everything p [] h = refl
  keep_everything p (x ∷ xs) h = rw h.0 (ap (λ ys. x ∷ ys) (keep_everything p xs h.1))

  pub keep_nothing : (p : A → Bool) (xs : List A) → All (λ x. p x ≡ false) xs → keep_if p xs ≡ []
  keep_nothing p [] h = refl
  keep_nothing p (x ∷ xs) h = rw h.0 (keep_nothing p xs h.1)

  pub keep-keep :
      (p q : A → Bool)
      → ((x : A) → q x ≡ true → p x ≡ true)
      → (xs : List A) → keep_if q (keep_if p xs) ≡ keep_if q xs
  keep-keep p q f [] = refl
  keep-keep p q f (x ∷ xs) = ground (arith, f x, keep-keep p q f xs)

  pub All-keep : (p : A → Bool) (xs : List A) → All (λ x. p x ≡ true) (keep_if p xs)
  All-keep p [] = tt
  All-keep p (x ∷ xs) = elim (Bool-cases (p x)) [
    | inl t ↦ rw t (t, All-keep p xs)
    | inr f ↦ rw f (All-keep p xs)
  ]

  All-keep_if : (P : A → Type 0) (p : A → Bool) (xs : List A) → All P xs → All P (keep_if p xs)
  All-keep_if P p [] h = tt
  All-keep_if P p (x ∷ xs) h = elim (Bool-cases (p x)) [
    | inl t ↦ rw t (h.0, All-keep_if P p xs h.1)
    | inr f ↦ rw f (All-keep_if P p xs h.1)
  ]

  pub AllPairs-keep_if :
      (R : A → A → Type 0) (p : A → Bool) (xs : List A) → AllPairs R xs → AllPairs R (keep_if p xs)
  AllPairs-keep_if R p [] h = tt
  AllPairs-keep_if R p (x ∷ xs) h = elim (Bool-cases (p x)) [
    | inl t ↦ rw t (All-keep_if (R x) p xs h.0, AllPairs-keep_if R p xs h.1)
    | inr f ↦ rw f (AllPairs-keep_if R p xs h.1)
  ]

  -- A list is what was taken from its front, and a rest.
  pub take-rest : (n : ℕ) (xs : List A) → (rest : List A) × (xs ≡ take n xs ++ rest)
  take-rest zero xs = (xs, refl)
  take-rest (suc n) [] = ([], refl)
  take-rest (suc n) (x ∷ xs) = let (rest, e) = take-rest n xs in (rest, ap (λ ys. x ∷ ys) e)

module _ {A : Type 0} (key : A → ℕ) where
  abbrev pub by_key : A → A → Bool
  by_key a b = leb (key a) (key b)

  abbrev pub IsBelow : A → A → Type 0
  IsBelow a b = key a ≤ key b

  abbrev pub IsOther : A → A → Type 0
  IsOther a b = key a ≢ key b

  All-insert :
      (P : A → Type 0) (x : A) (ys : List A) → P x → All P ys → All P (insert_by by_key x ys)
  unfolding insert_by
  All-insert P x [] h k = (h, tt)
  All-insert P x (y ∷ ys) h k = elim (Bool-cases (by_key x y)) [
    | inl t ↦ rw t (h, k)
    | inr f ↦ rw f (k.0, All-insert P x ys h k.1)
  ]

  pub All-sort : (P : A → Type 0) (xs : List A) → All P xs → All P (sort_by by_key xs)
  unfolding sort_by
  All-sort P [] h = tt
  All-sort P (x ∷ xs) h = All-insert P x (sort_by by_key xs) h.0 (All-sort P xs h.1)

  insert-ascends :
      (x : A) (ys : List A) → AllPairs IsBelow ys → AllPairs IsBelow (insert_by by_key x ys)
  unfolding insert_by
  insert-ascends x [] h = (tt, tt)
  insert-ascends x (y ∷ ys) h = elim (Bool-cases (by_key x y)) [
    | inl t ↦
        let le : key x ≤ key y = ground arith in
        rw t ((le, All-map (IsBelow y) (IsBelow x) ys (λ z p. omega arith) h.0), h)
    | inr f ↦
        let le : key y ≤ key x = ground arith in
        rw f (All-insert (IsBelow y) x ys le h.0, insert-ascends x ys h.1)
  ]

  pub sort-ascends : (xs : List A) → AllPairs IsBelow (sort_by by_key xs)
  unfolding sort_by
  sort-ascends [] = tt
  sort-ascends (x ∷ xs) = insert-ascends x (sort_by by_key xs) (sort-ascends xs)

  insert-differs :
      (x : A) (ys : List A)
      → All (IsOther x) ys
      → AllPairs IsOther ys
      → AllPairs IsOther (insert_by by_key x ys)
  unfolding insert_by
  insert-differs x [] h k = (tt, tt)
  insert-differs x (y ∷ ys) h k = elim (Bool-cases (by_key x y)) [
    | inl t ↦ rw t (h, k)
    | inr f ↦ rw f (All-insert (IsOther y) x ys (λ e. h.0 (sym e)) k.0, insert-differs x ys h.1 k.1)
  ]

  pub sort-differs : (xs : List A) → AllPairs IsOther xs → AllPairs IsOther (sort_by by_key xs)
  unfolding sort_by
  sort-differs [] h = tt
  sort-differs (x ∷ xs) h =
      insert-differs x (sort_by by_key xs) (All-sort (IsOther x) xs h.0) (sort-differs xs h.1)

  -- Filtering a sorted list is sorting the filtered list.
  insert_below : (x : A) (ys : List A) → All (IsBelow x) ys → insert_by by_key x ys ≡ x ∷ ys
  unfolding insert_by
  insert_below x [] h = refl
  insert_below x (y ∷ ys) h = let le = h.0 in let t : by_key x y ≡ true = ground arith in rw t refl

  keep-insert :
      (p : A → Bool) (x : A) (ys : List A)
      → AllPairs IsBelow ys
      → keep_if p (insert_by by_key x ys)
        ≡ (if p x then insert_by by_key x (keep_if p ys) else keep_if p ys)
  unfolding insert_by
  keep-insert p x [] h = refl
  keep-insert p x (y ∷ ys) h = elim (Bool-cases (by_key x y)) [
    | inl t ↦
        let le : key x ≤ key y = ground arith in
        let below =
          All-keep_if (IsBelow x) p (y ∷ ys)
            (le, All-map (IsBelow y) (IsBelow x) ys (λ z q. omega arith) h.0) in
        elim (Bool-cases (p x)) [
          | inl px ↦ rw (t, px) (sym (insert_below x (keep_if p (y ∷ ys)) below))
          | inr nx ↦ rw (t, nx) refl
        ]
    | inr f ↦
        let rest = keep-insert p x ys h.1 in
        elim (Bool-cases (p x)) [
          | inl px ↦ elim (Bool-cases (p y)) [
            | inl py ↦ rw (f, px, py, f) (ap (λ zs. y ∷ zs) (rw px at rest))
            | inr ny ↦ rw (f, px, ny) (rw px at rest)
          ]
          | inr nx ↦ elim (Bool-cases (p y)) [
            | inl py ↦ rw (f, nx, py) (ap (λ zs. y ∷ zs) (rw nx at rest))
            | inr ny ↦ rw (f, nx, ny) (rw nx at rest)
          ]
        ]
  ]

  pub keep-sort :
      (p : A → Bool) (xs : List A) → keep_if p (sort_by by_key xs) ≡ sort_by by_key (keep_if p xs)
  unfolding sort_by
  keep-sort p [] = refl
  keep-sort p (x ∷ xs) =
      keep-insert p x (sort_by by_key xs) (sort-ascends xs) ∙ (elim (Bool-cases (p x)) [
        | inl px ↦ rw px (ap (insert_by by_key x) (keep-sort p xs))
        | inr nx ↦ rw nx (keep-sort p xs)
      ])
