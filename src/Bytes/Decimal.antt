-- ===== src/Bytes/Decimal.antt =====
-- `%d` of package fmt, for a number that is not negative.
use vire_fs.Base.{ℕ, zero, suc, [], ◌∷◌, if◌then◌else◌, ltb, ◌+◌, ◌/◌, ◌%◌}
use vire_fs.Bytes.{Bytes}

digits : ℕ → ℕ → Bytes → Bytes
digits zero n later = later
digits (suc fuel) n later =
    let here = (b'0' + n % 10) ∷ later in
    let rest = digits fuel (n / 10) here in if ltb n 10 then here else rest

-- An `int` has 19 digits at most.
unfoldable pub decimal : ℕ → Bytes
unfolding digits
decimal n = digits 20 n []
