-- ===== src/Int64.antt =====
-- Signed numbers of 64 bits in expressions without tests (include/position.hpp).
use cmarket.Prelude.{
  ◌+◌, ◌-◌, ◌%◌, ◌≡◌, Bool, true, ◌&&◌, arith, ltb, if◌then◌else◌, u64_mod, pos_part, neg_part,
  leb_ℤ, int64_max, int64_min, ℤ, Result, pos, negsuc, ok, err, undefined_behaviour,
}

abbrev pub is_int64 : ℤ → Bool
is_int64 n = leb_ℤ int64_min n && leb_ℤ n int64_max

-- The value of an expression of signed 64-bit numbers.
unfoldable pub checked : ℤ → Result ℤ
checked n = if is_int64 n then ok n else err undefined_behaviour

-- `static_cast<std::int64_t>` of a number of 128 bits.
unfoldable pub to_int64 : ℤ → ℤ
to_int64 n =
    let low = (pos_part n + (u64_mod - neg_part n % u64_mod)) % u64_mod in
    if ltb low 9223372036854775808 then pos low else negsuc (u64_mod - 1 - low)

pub to_int64_in_range : (n : ℤ) → is_int64 n ≡ true → to_int64 n ≡ n
unfolding to_int64
to_int64_in_range n h = ground arith
