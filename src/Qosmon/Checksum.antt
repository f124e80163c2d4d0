-- ===== src/Qosmon/Checksum.antt =====
-- The Internet checksum of packages/gargoyle/qos-gargoyle/src/qosmon.c.
use openwrt_extra.Common.{
  ℕ, ◌+◌, ◌-◌, ◌*◌, ◌/◌, ◌%◌, ◌^◌, ◌<◌, ◌≡◌, List, [], ◌∷◌, ◌++◌, length, arith,
}

folds :
    (a b c d : ℕ)
    → b < 65536
    → d < 65536
    → a < 65536
    → 65536 * c + d ≡ 65536 * a + b + (65535 - (a + b + (a + b) / 65536) % 65536)
    → 65535 - (c + d + (c + d) / 65536) % 65536 ≡ 0
folds a b c d h g e eq = omega arith

-- A sum s, and t with the complement of what s is folded to.
checks :
    (s t : ℕ)
    → t < 2 ^ 31
    → t ≡ s + (2 ^ 16 - 1 - (s / 2 ^ 16 + s % 2 ^ 16 + (s / 2 ^ 16 + s % 2 ^ 16) / 2 ^ 16) % 2 ^ 16)
    → 2 ^ 16 - 1 - (t / 2 ^ 16 + t % 2 ^ 16 + (t / 2 ^ 16 + t % 2 ^ 16) / 2 ^ 16) % 2 ^ 16 ≡ 0
checks s t small eq =
    folds (s / 65536) (s % 65536) (t / 65536) (t % 65536) (omega arith) (omega arith) (omega arith)
      (omega arith)

-- `word a b` is the u_short that the bytes a and b are in memory.
module _ (word : ℕ → ℕ → ℕ) where
  -- The sum of the words; an odd byte at the end is the first one of a word whose other byte is 0.
  unfoldable pub word_sum : List ℕ → ℕ
  word_sum [] = 0
  word_sum (a ∷ []) = word a 0
  word_sum (a ∷ b ∷ rest) = word a b + word_sum rest

  unfoldable pub in_cksum : List ℕ → ℕ
  unfolding word_sum
  in_cksum bytes =
      let sum = word_sum bytes in
      let folded = sum / 2 ^ 16 + sum % 2 ^ 16 in 2 ^ 16 - 1 - (folded + folded / 2 ^ 16) % 2 ^ 16

  word_sum-append :
      (before after : List ℕ) (half : ℕ)
      → length before ≡ 2 * half
      → word_sum (before ++ after) ≡ word_sum before + word_sum after
  unfolding word_sum
  word_sum-append [] after half even = omega arith
  word_sum-append (a ∷ []) after half even = absurd (omega arith)
  word_sum-append (a ∷ b ∷ rest) after half even =
      let ih = word_sum-append rest after (half - 1) (omega arith) in omega arith

  -- Where the word of 0s in an even place is replaced by the checksum of the packet, the checksum of the
  -- result is 0, as long as the sum of its words is less than 2 ^ 31. `word` is any map with word 0 0 = 0.
  pub in_cksum-verifies :
      (before after : List ℕ) (half x y : ℕ)
      → word 0 0 ≡ 0
      → length before ≡ 2 * half
      → word x y ≡ in_cksum (before ++ (0 ∷ 0 ∷ after))
      → word_sum (before ++ (x ∷ y ∷ after)) < 2 ^ 31
      → in_cksum (before ++ (x ∷ y ∷ after)) ≡ 0
  unfolding in_cksum word_sum
  in_cksum-verifies before after half x y zeros even sent small =
      let s = word_sum-append before (0 ∷ 0 ∷ after) half even in
      let t = word_sum-append before (x ∷ y ∷ after) half even in
      checks (word_sum (before ++ (0 ∷ 0 ∷ after))) (word_sum (before ++ (x ∷ y ∷ after))) small
        (omega arith)
