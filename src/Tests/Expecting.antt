-- ===== src/Tests/Expecting.antt =====
-- The expect interface over lists of numbers; it has the properties that the model asks of mpack's.
use haze.Base.{ℕ, refl, List, ◌++◌, Option, none, Bool, false, length, ℤ, pos}
use haze.Wire.Mpack.{Tag}
use haze.Wire.Notification.Expect.{Expect}
use haze.Wire.Notification.Unmarshal.Laws.{Expects}
use haze.Tests.Codec.{
  read_next, read_inplace, next_tag-encode, read_inplace-append, list_reader-Reads,
}

abbrev bool_of : Tag → Bool
bool_of (Tag.bool b) = b
bool_of _ = false

abbrev int_of : Tag → ℤ
int_of (Tag.int z) = z
int_of _ = pos 0

abbrev pub number_of : Tag → ℕ
number_of (Tag.uint n) = n
number_of (Tag.float n) = n
number_of (Tag.double n) = n
number_of (Tag.str n) = n
number_of (Tag.bin n) = n
number_of (Tag.array n) = n
number_of _ = 0

abbrev pub expect_number : Option (List ℕ) → ℕ × Option (List ℕ)
expect_number r = (number_of (read_next r).0, (read_next r).1)

abbrev pub list_expect : Expect (Option (List ℕ))
list_expect = record {
  peek_tag = λ r. ((read_next r).0, r);
  expect_nil = λ r. (read_next r).1;
  expect_bool = λ r. (bool_of (read_next r).0, (read_next r).1);
  expect_int = λ r. (int_of (read_next r).0, (read_next r).1);
  expect_uint = expect_number;
  expect_float = expect_number;
  expect_double = expect_number;
  expect_str = expect_number;
  expect_bin = expect_number;
  expect_array_max = λ max. expect_number;
  expect_uint_match = λ n r. (read_next r).1;
  expect_cstr_alloc = λ max r. read_inplace (expect_number r).0 (expect_number r).1;
  discard = λ r. (read_next r).1;
  flag_error = λ r. none;
}

pub list_expect-Expects : Expects list_reader-Reads list_expect
unfolding list_reader-Reads
list_expect-Expects = record {
  peek_there = λ r t rest e. rw (e, next_tag-encode t rest) (refl, refl);
  nil_there = λ r rest e. rw (e, next_tag-encode Tag.nil rest) refl;
  bool_there = λ r b rest e. rw (e, next_tag-encode (Tag.bool b) rest) (refl, refl);
  int_there = λ r z rest e. rw (e, next_tag-encode (Tag.int z) rest) (refl, refl);
  uint_there = λ r n rest e. rw (e, next_tag-encode (Tag.uint n) rest) (refl, refl);
  float_there = λ r x rest e. rw (e, next_tag-encode (Tag.float x) rest) (refl, refl);
  double_there = λ r x rest e. rw (e, next_tag-encode (Tag.double x) rest) (refl, refl);
  str_there = λ r n rest e. rw (e, next_tag-encode (Tag.str n) rest) (refl, refl);
  bin_there = λ r n rest e. rw (e, next_tag-encode (Tag.bin n) rest) (refl, refl);
  array_there = λ r max n rest k e. rw (e, next_tag-encode (Tag.array n) rest) (refl, refl);
  match_there = λ r n rest e. rw (e, next_tag-encode (Tag.uint n) rest) refl;
  cstr_there = λ r max s rest clean short e.
      rw (e, next_tag-encode (Tag.str (length s)) (s ++ rest), read_inplace-append s rest)
        (refl, refl);
}
