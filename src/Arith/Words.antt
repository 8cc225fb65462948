-- ===== src/Arith/Words.antt =====
-- The operations on `i64`, on the 64 bits of a value.
use Prim.Native.Nat.{bit_and, bit_or, bit_xor}
use ion_win.Base.{ℕ, ◌+◌, ◌-◌, ◌*◌, ◌/◌, ◌%◌, ◌^◌, Bool, not, ◌&&◌, if◌then◌else◌, ◌==◌, ltb}
use ion_win.Base.Int.{ℤ, pos, negsuc}

abbrev pub wrap : ℕ → ℕ
wrap n = n % 2 ^ 64

-- The bits of an integer.
abbrev pub word_of : ℤ → ℕ
word_of (pos n) = wrap n
word_of (negsuc n) = wrap (2 ^ 64 - 1 - n)

abbrev pub wrapping_add : ℕ → ℕ → ℕ
wrapping_add a b = wrap (a + b)

abbrev pub wrapping_sub : ℕ → ℕ → ℕ
wrapping_sub a b = wrap (a + (2 ^ 64 - b))

abbrev pub wrapping_mul : ℕ → ℕ → ℕ
wrapping_mul a b = wrap (a * b)

abbrev pub wrapping_neg : ℕ → ℕ
wrapping_neg a = wrap (2 ^ 64 - a)

-- `!a`
abbrev pub bit_not : ℕ → ℕ
bit_not a = wrap (2 ^ 64 - 1 - a)

abbrev pub and_bits : ℕ → ℕ → ℕ
and_bits a b = wrap (bit_and a b)

abbrev pub or_bits : ℕ → ℕ → ℕ
or_bits a b = wrap (bit_or a b)

abbrev pub xor_bits : ℕ → ℕ → ℕ
xor_bits a b = wrap (bit_xor a b)

-- The amount of a shift is taken modulo the width.
abbrev pub shift_left : ℕ → ℕ → ℕ
shift_left a b = wrap (a * 2 ^ (b % 64))

abbrev pub is_negative : ℕ → Bool
is_negative a = not (ltb a (2 ^ 63))

-- The bits that come in are copies of the sign.
abbrev pub shift_right : ℕ → ℕ → ℕ
shift_right a b =
    if is_negative a
    then wrap (2 ^ 64 - 1 - (2 ^ 64 - 1 - a) / 2 ^ (b % 64))
    else wrap (a / 2 ^ (b % 64))

abbrev pub absolute : ℕ → ℕ
absolute a = if is_negative a then 2 ^ 64 - a else a

-- `a % b` for `b` that is not zero: the sign is that of `a`.
abbrev pub remainder : ℕ → ℕ → ℕ
remainder a b =
    if is_negative a
    then wrap (2 ^ 64 - absolute a % absolute b)
    else wrap (absolute a % absolute b)

-- `i64::MIN % -1`
abbrev pub overflows : ℕ → ℕ → Bool
overflows a b = a == 2 ^ 63 && b == 2 ^ 64 - 1
