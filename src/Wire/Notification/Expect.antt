-- ===== src/Wire/Notification/Expect.antt =====
-- mpack's expect interface, as source/api/proto/Notification.c calls it.
use haze.Base.{ℕ, ℤ, Option, List, Bool}
use haze.Wire.Mpack.{Tag}

-- NOTIFICATION_MAX_PARAMS, and NOTIFICATION_MAX_METHOD_SIZE
abbrev pub max_params : ℕ
max_params = 4096

abbrev pub max_method_size : ℕ
max_method_size = 4096

-- The calls of mpack's expect interface; `expect_cstr_alloc` hands a block over with its result.
pub record Expect (R : Type 0) : Type 0 where
  pub peek_tag : R → Tag × R
  pub expect_nil : R → R
  pub expect_bool : R → Bool × R
  pub expect_int : R → ℤ × R
  pub expect_uint : R → ℕ × R
  pub expect_float : R → ℕ × R
  pub expect_double : R → ℕ × R
  pub expect_str : R → ℕ × R
  pub expect_bin : R → ℕ × R
  pub expect_array_max : ℕ → R → ℕ × R
  pub expect_uint_match : ℕ → R → R
  pub expect_cstr_alloc : ℕ → R → Option (List ℕ) × R
  pub discard : R → R
  pub flag_error : R → R
