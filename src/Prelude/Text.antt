-- ===== src/Prelude/Text.antt =====
-- Texts: the code points, the tests of the program's regular expressions, decimal and hexadecimal
-- printing, and the order by which Python sorts strings.
use Prim.Native.Nat.{ℕ, zero, suc, ◌/◌, ◌%◌, ◌^◌, ◌<◌, compare, Ordering}
use Prim.Native.Char.{Char, code}
use Prim.Native.String.{String, ◌++◌ as append}
use mathlib.Core.Path.{◌≡◌, refl}
use mathlib.Core.Logic.{dite}
use mathlib.Core.WellFounded.{Acc}
use mathlib.Core.Bool.{Bool, true, false, ◌&&◌, ◌||◌}
use mathlib.Core.List.{List, [], ◌∷◌}
use native.Mathlib.Omega.{arith}
use native.Mathlib.Decide.{dec_lt}
use northgate_rmm.Prelude.Tests.{leb, eqb}
use northgate_rmm.Prelude.Lists.{length, all}
use northgate_rmm.Prelude.Int.{ℤ, pos, negsuc}
use northgate_rmm.Prelude.Order.{lt_wf}

abbrev pub codes : String → List ℕ
codes String.[] = []
codes (String.◌∷◌ c s) = code c ∷ codes s

-- `not s`
abbrev pub is_empty : String → Bool
is_empty String.[] = true
is_empty (String.◌∷◌ c s) = false

-- `len(s)`, in code points
abbrev pub len : String → ℕ
len String.[] = 0
len (String.◌∷◌ c s) = suc (len s)

-- `s + t`, by recursion on `s`
abbrev pub concat : String → String → String
concat String.[] t = t
concat (String.◌∷◌ c s) t = String.◌∷◌ c (concat s t)

-- [0-9a-f]
unfoldable pub is_lower_hex : ℕ → Bool
is_lower_hex c = (leb b'0' c && leb c b'9') || (leb b'a' c && leb c b'f')

-- `re.fullmatch(r"[0-9a-f]{64}", s)`
unfoldable pub is_hex64 : List ℕ → Bool
unfolding is_lower_hex
is_hex64 s = eqb (length s) 64 && all is_lower_hex s

-- The rest of `s` behind `prefix`, tested code point by code point.
unfoldable pub fullmatch_after : List ℕ → (List ℕ → Bool) → List ℕ → Bool
fullmatch_after [] p s = p s
fullmatch_after (c ∷ cs) p [] = false
fullmatch_after (c ∷ cs) p (d ∷ s) = eqb c d && fullmatch_after cs p s

-- The order of Python strings: by code points.
unfoldable pub str_leb : String → String → Bool
str_leb String.[] t = true
str_leb (String.◌∷◌ c s) String.[] = false
str_leb (String.◌∷◌ c s) (String.◌∷◌ d t) =
    let rest = str_leb s t in
    elim (compare (code c) (code d)) [
      | Ordering.lt ↦ true
      | Ordering.eq ↦ rest
      | Ordering.gt ↦ false
    ]

digit_at : ℕ → String → Char
digit_at i String.[] = "0"
digit_at zero (String.◌∷◌ c s) = c
digit_at (suc i) (String.◌∷◌ c s) = digit_at i s

unfoldable pub digit : ℕ → Char
unfolding digit_at
digit i = digit_at i "0123456789abcdef"

decimal_acc : (n : ℕ) → Acc ◌<◌ n → String
decimal_acc n (Acc.intro _ smaller) =
    dite (dec_lt n 10) (λ _. String.◌∷◌ (digit n) String.[])
      λ h.
        append (decimal_acc (n / 10) (smaller (n / 10) (omega arith)))
          (String.◌∷◌ (digit (n % 10)) String.[])

-- `str(n)` of an integer
unfoldable pub int_str : ℤ → String
unfolding decimal_acc lt_wf dec_lt digit
int_str (pos n) = decimal_acc n (lt_wf.apply n)
int_str (negsuc n) = String.◌∷◌ "-" (decimal_acc (suc n) (lt_wf.apply (suc n)))

-- The `w` lowest hexadecimal digits of `n`, in front of `rest`.
hex_digits : ℕ → ℕ → String → String
hex_digits zero n rest = rest
hex_digits (suc w) n rest = hex_digits w (n / 16) (String.◌∷◌ (digit (n % 16)) rest)

-- `str(u)` of a UUID that is held as its 128-bit integer: 8-4-4-4-12 lower-case digits.
unfoldable pub uuid_str : ℕ → String
unfolding hex_digits digit
uuid_str u =
    let dash = λ (s : String). String.◌∷◌ "-" s in
    hex_digits 8 (u / 16 ^ 24) (
      dash (
        hex_digits 4 (u / 16 ^ 20) (
          dash (
            hex_digits 4 (u / 16 ^ 16)
              (dash (hex_digits 4 (u / 16 ^ 12) (dash (hex_digits 12 u String.[]))))))))

uuid_str_text : uuid_str 0x0123456789abcdef0123456789abcdef ≡ "01234567-89ab-cdef-0123-456789abcdef"
unfolding uuid_str
uuid_str_text = refl

int_str_text : int_str (pos 9007) ≡ "9007"
unfolding int_str
int_str_text = refl
