-- ===== src/Payments/Uid.antt =====
-- `normalize_uid` of python/app/payments.py: the hexadecimal digits of an RF card's number.
pub mod Canonical
use python_vs_go_pos_benchma.Prelude.{
  ℕ, ◌-◌, ◌%◌, Bool, not, ◌&&◌, ◌||◌, Text, ltb, leb, ◌==◌, length, map, select, if◌then◌else◌,
}
use python_vs_go_pos_benchma.Errors.{Result, ok, err, failure}

-- [0-9A-Fa-f]
abbrev pub is_hex_digit : ℕ → Bool
is_hex_digit c =
    (leb b'0' c && leb c b'9') || (leb b'A' c && leb c b'F') || (leb b'a' c && leb c b'f')

-- `.upper()` of an ASCII character
abbrev pub to_upper : ℕ → ℕ
to_upper c = if leb b'a' c && leb c b'z' then c - 32 else c

-- `re.sub(r"[^0-9A-Fa-f]", "", value).upper()`
unfoldable pub hex_digits : Text → Text
hex_digits value = map to_upper (select is_hex_digit value)

unfoldable pub normalize_uid : Text → Result Text
normalize_uid value =
    let normalized = hex_digits value in
    if ltb (length normalized) 8 || ltb 64 (length normalized) || not (length normalized % 2 == 0)
    then err (failure 422 "INVALID_RF_UID" "RF UID biçimi geçersiz.")
    else ok normalized
