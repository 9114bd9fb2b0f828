-- ===== src/Json/Escape.antt =====
-- The escapes of `json.dumps(..., ensure_ascii=True)`: two-character escapes, `\uXXXX` for what is
-- not printable ASCII, and a surrogate pair past the basic plane.
use northgate_rmm.Prelude.{
  ℕ, ◌+◌, ◌-◌, ◌/◌, ◌%◌, ◌++◌, List, [], ◌∷◌, ltb, leb, eqb, ◌&&◌, if◌then◌else◌,
}

abbrev backslash : ℕ
backslash = 92

hex_digit : ℕ → ℕ
hex_digit d = if ltb d 10 then b'0' + d else b'a' + (d - 10)

unfoldable pub unicode_escape : ℕ → List ℕ
unfolding hex_digit
unicode_escape u =
    backslash
    ∷ b'u'
    ∷ hex_digit (u / 4096 % 16)
    ∷ hex_digit (u / 256 % 16)
    ∷ hex_digit (u / 16 % 16)
    ∷ hex_digit (u % 16)
    ∷ []

unfoldable pub escape_char : ℕ → List ℕ
unfolding unicode_escape
escape_char c =
    if eqb c b'"'
    then backslash ∷ b'"' ∷ []
    else if eqb c backslash
    then backslash ∷ backslash ∷ []
    else if leb 32 c && leb c 126
    then c ∷ []
    else if eqb c 10
    then backslash ∷ b'n' ∷ []
    else if eqb c 13
    then backslash ∷ b'r' ∷ []
    else if eqb c 9
    then backslash ∷ b't' ∷ []
    else if eqb c 12
    then backslash ∷ b'f' ∷ []
    else if eqb c 8
    then backslash ∷ b'b' ∷ []
    else if ltb c 65536
    then unicode_escape c
    else unicode_escape (55296 + (c - 65536) / 1024) ++ unicode_escape (56320 + (c - 65536) % 1024)

unfoldable pub escape : List ℕ → List ℕ
unfolding escape_char
escape [] = []
escape (c ∷ cs) = escape_char c ++ escape cs
