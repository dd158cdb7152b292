-- ===== src/Common.antt =====
-- include/cachercise/cachercise-common.h: the error codes, the kinds of I/O and the cache ids; and
-- the conversions between the C integer types that the program makes. An `int64_t`, a `uint64_t`,
-- a `size_t` or an `int` is its bit pattern, a number below 2 ^ 64 or 2 ^ 32.
use cachercise.Base.{ℕ, ◌+◌, ◌-◌, ◌%◌, ◌^◌, ◌<◌, ◌≡◌, Bool, true, false, arith, ltb, if◌then◌else◌}

pub data ReturnCode : Type 0 where
  success : ReturnCode
  err_allocation err_invalid_args err_invalid_provider err_invalid_cache : ReturnCode
  err_invalid_backend err_invalid_config err_invalid_token err_from_mercury : ReturnCode
  err_from_argobots err_op_unsupported err_op_forbidden err_other : ReturnCode

-- The value that C gives to the enumerator.
unfoldable pub to_int : ReturnCode → ℕ
to_int success = 0
to_int err_allocation = 1
to_int err_invalid_args = 2
to_int err_invalid_provider = 3
to_int err_invalid_cache = 4
to_int err_invalid_backend = 5
to_int err_invalid_config = 6
to_int err_invalid_token = 7
to_int err_from_mercury = 8
to_int err_from_argobots = 9
to_int err_op_unsupported = 10
to_int err_op_forbidden = 11
to_int err_other = 12

-- ret == CACHERCISE_SUCCESS
abbrev pub is_success : ReturnCode → Bool
is_success success = true
is_success _ = false

-- CACHERCISE_WRITE and CACHERCISE_READ
abbrev pub write : ℕ
write = 0

abbrev pub read : ℕ
read = 1

-- A cache id is the number that its sixteen bytes spell.
abbrev pub CacheId : Type 0
CacheId = ℕ

-- An address; 0 is NULL.
abbrev pub Ptr : Type 0
Ptr = ℕ

abbrev pub null : Ptr
null = 0

abbrev pub u64 : ℕ → ℕ
u64 n = n % 2 ^ 64

-- (int) of a 64-bit value
abbrev pub to_int32 : ℕ → ℕ
to_int32 n = n % 2 ^ 32

-- (int64_t) of an `int`
abbrev pub sign_extend : ℕ → ℕ
sign_extend n = if ltb n (2 ^ 31) then n else n + (2 ^ 64 - 2 ^ 32)

pub sign_extend_small : (n : ℕ) → n < 2 ^ 31 → sign_extend (to_int32 n) ≡ n
sign_extend_small n h = ground arith

pub is_success_eq : (r : ReturnCode) → is_success r ≡ true → r ≡ success
is_success_eq r h = ground arith
