-- ===== src/Views/Safe.antt =====
-- `html.escape` of src/northgate_rmm/views.py leaves no markup.
use northgate_rmm.Prelude.{
  ℕ, ◌≡◌, ◌≢◌, refl, String, arith, nat_eq, eqb, Bool-cases, inl, inr, false, ◌||◌,
}
use northgate_rmm.Prelude.Lists.{All}
use northgate_rmm.Prelude.Text.{codes}
use northgate_rmm.Views.{escape, escape_char}
use Prim.Native.Char.{Char, code}

-- Neither an angle bracket nor a quotation mark.
record IsInert (c : ℕ) : Type 0 where
  pub not_open : c ≢ b'<'
  pub not_close : c ≢ b'>'
  pub not_double : c ≢ b'"'
  pub not_single : c ≢ 39

plain : (c : ℕ) → (eqb c b'<' || eqb c b'>' || eqb c b'"' || eqb c 39) ≡ false → IsInert c
plain c h = record {
  not_open = ground arith;
  not_close = ground arith;
  not_double = ground arith;
  not_single = ground arith;
}

escape_char-IsInert :
    (c : Char) (rest : String) → All IsInert (codes rest) → All IsInert (codes (escape_char c rest))
unfolding escape_char
escape_char-IsInert c rest h = elim (Bool-cases (eqb (code c) b'&')) [
  | inl a ↦
      rw a (plain 38 refl, (plain 97 refl, (plain 109 refl, (plain 112 refl, (plain 59 refl, h)))))
  | inr a ↦ elim (Bool-cases (eqb (code c) b'<')) [
    | inl b ↦ rw (a, b) (plain 38 refl, (plain 108 refl, (plain 116 refl, (plain 59 refl, h))))
    | inr b ↦ elim (Bool-cases (eqb (code c) b'>')) [
      | inl d ↦ rw (a, b, d) (plain 38 refl, (plain 103 refl, (plain 116 refl, (plain 59 refl, h))))
      | inr d ↦ elim (Bool-cases (eqb (code c) b'"')) [
        | inl e ↦
            rw (a, b, d, e)
              (
                plain 38 refl,
                (
                  plain 113 refl,
                  (plain 117 refl, (plain 111 refl, (plain 116 refl, (plain 59 refl, h)))),
                ),
              )
        | inr e ↦ elim (Bool-cases (eqb (code c) 39)) [
          | inl f ↦
              rw (a, b, d, e, f)
                (
                  plain 38 refl,
                  (
                    plain 35 refl,
                    (plain 120 refl, (plain 50 refl, (plain 55 refl, (plain 59 refl, h)))),
                  ),
                )
          | inr f ↦ rw (a, b, d, e, f) (plain (code c) (rw (b, d, e, f) refl), h)
        ]
      ]
    ]
  ]
]

-- No character of an escaped text opens or closes a tag or an attribute's value.
escape-IsInert : (s : String) → All IsInert (codes (escape s))
unfolding escape
escape-IsInert String.[] = tt
escape-IsInert (String.◌∷◌ c s) = escape_char-IsInert c (escape s) (escape-IsInert s)
