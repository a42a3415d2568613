-- ===== src/Seed/Decimal.antt =====
-- Numbers as text in the queries of db/seed/seed.py: `g::text`, `to_hex(g)` and `lpad(…, n, '0')`.
pub mod RoundTrip
use Prim.Native.Char.{Char, code}
use Prim.Native.String.{String, ◌++◌}
use python_vs_go_pos_benchma.Prelude.{
  ℕ, zero, suc, ◌+◌, ◌-◌, ◌*◌, ◌/◌, ◌%◌, ◌^◌, ◌≤◌, ◌<◌, ◌≡◌, refl, arith, Bool-cases, inl, inr, leb,
  ◌==◌, if◌then◌else◌,
}

-- The character at an index.
abbrev pub char_at : ℕ → String → Char
char_at n String.[] = "0"
char_at zero (String.◌∷◌ c s) = c
char_at (suc n) (String.◌∷◌ c s) = char_at n s

abbrev pub digit : ℕ → Char
digit n = char_at n "0123456789abcdef"

-- The digits of a number before a text, none for 0. Ids have at most 19 digits: the fuel is 20.
unfoldable pub digits : ℕ → ℕ → ℕ → String → String
digits base zero n out = out
digits base (suc fuel) n out =
    let rest = digits base fuel (n / base) (String.◌∷◌ (digit (n % base)) out) in
    if n == 0 then out else rest

-- g::text
unfoldable pub decimal : ℕ → String
decimal n = if n == 0 then "0" else digits 10 20 n ""

-- to_hex(g)
unfoldable pub to_hex : ℕ → String
to_hex n = if n == 0 then "0" else digits 16 20 n ""

-- How many characters a text has, and its first ones.
abbrev pub chars : String → ℕ
chars String.[] = 0
chars (String.◌∷◌ c s) = suc (chars s)

abbrev pub left : ℕ → String → String
left zero s = ""
left (suc n) String.[] = ""
left (suc n) (String.◌∷◌ c s) = String.◌∷◌ c (left n s)

abbrev pub zeros : ℕ → String → String
zeros zero s = s
zeros (suc n) s = String.◌∷◌ "0" (zeros n s)

-- lpad(s, width, '0'), which cuts off what is too long
unfoldable pub lpad : ℕ → String → String
lpad width s = if leb (chars s) width then zeros (width - chars s) s else left width s
