-- ===== src/SolisFrames/Signed.antt =====
-- The words of a signed number give it back.
use ha_spark.Prelude.{
  ℕ, ◌+◌, ◌-◌, ◌*◌, ◌/◌, ◌%◌, ◌<◌, ◌≡◌, refl, ap, ◌∙◌, true, false, some, [], ◌∷◌, leb, arith,
  length, drop, ◌++◌, if_cases,
}
use ha_spark.Prelude.Int.{ℤ, pos, negsuc, sub_ℕ}
use ha_spark.NativeSlots.{Words, valid_words}
use ha_spark.SolisFrames.{Frame, s32, Point, joined, signed, decode}

-- The two's complement of a number in 32 bits.
abbrev pub in_32_bits : ℤ → ℕ
in_32_bits (pos n) = n
in_32_bits (negsuc n) = 4294967295 - n

-- Its two words, the high one first.
abbrev pub words_of : ℤ → Words
words_of v = in_32_bits v / 65536 ∷ in_32_bits v % 65536 ∷ []

abbrev pub InRange : ℤ → Type 0
InRange (pos n) = n < 2147483648
InRange (negsuc n) = n < 2147483648

joined_words : (n : ℕ) → n / 65536 * 65536 + n % 65536 ≡ n
joined_words n = omega arith

negative : (n : ℕ) → n < 2147483648 → signed s32 (4294967295 - n) ≡ negsuc n
negative n h =
    let back : 4294967296 - (4294967295 - n) - 1 ≡ n = omega (arith, h) in
    if_cases (λ (v : ℤ). v ≡ negsuc n) (leb 2147483648 (4294967295 - n))
      (sub_ℕ (4294967295 - n) 4294967296) (pos (4294967295 - n))
      (λ e.
        if_cases (λ (v : ℤ). v ≡ negsuc n) (leb 4294967296 (4294967295 - n)) _ _
          (λ k. ground (arith, k)) (λ k. ap negsuc back))
      (λ e. ground (arith, e, h))

in_range : (v : ℤ) → InRange v → in_32_bits v < 4294967296
in_range (pos n) h = omega (arith, h)
in_range (negsuc n) h = omega arith

drop-append : (before rest : Words) → drop (length before) (before ++ rest) ≡ rest
drop-append [] rest = refl
drop-append (x ∷ before) rest = drop-append before rest

valid-append :
    (xs ys : Words) → valid_words xs ≡ true → valid_words ys ≡ true → valid_words (xs ++ ys) ≡ true
valid-append [] ys h k = k
valid-append (x ∷ xs) ys h k = ground (arith, h, valid-append xs ys (ground (arith, h)) k)

signed-joined :
    (v : ℤ) → InRange v → signed s32 (joined (in_32_bits v / 65536) (in_32_bits v % 65536 ∷ [])) ≡ v
signed-joined (pos n) h = rw (joined_words n) (ground (arith, h))
signed-joined (negsuc n) h = rw (joined_words (4294967295 - n)) (negative n h)

abbrev pub signed_point : Frame → ℕ → Point
signed_point frame address = record {
  frame = frame;
  address = address;
  count = 2;
  kind = s32;
  percent = false;
}

-- Of a frame that holds the two words of a signed number at the place of a point, among valid words,
-- the point's number is that number.
pub decode-words_of :
    (frame : Frame) (before after : Words) (v : ℤ)
    → InRange v
    → valid_words before ≡ true
    → valid_words after ≡ true
    → decode
        (signed_point frame (frame.address + length before))
        (before ++ (words_of v ++ after))
        true
      ≡ some v
unfolding decode
decode-words_of frame before after v h a b =
    let words = before ++ (words_of v ++ after) in
    let bits = in_range v h in
    let two : valid_words (words_of v ++ after) ≡ true = ground (arith, b, bits) in
    let valid : valid_words words ≡ true = valid-append before (words_of v ++ after) a two in
    let place : frame.address + length before - frame.address ≡ length before = omega arith in
    let part : drop (frame.address + length before - frame.address) words ≡ words_of v ++ after =
      ap (λ n. drop n words) place ∙ drop-append before (words_of v ++ after) in
    rw (part, valid) (ap some (signed-joined v h))
