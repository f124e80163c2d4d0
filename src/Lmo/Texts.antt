-- ===== src/Lmo/Texts.antt =====
-- Lemmas on text: its pieces and their concatenation, and the first byte of an encoding.
use openwrt_extra.Common.{
  ℕ, ◌<◌, ◌≡◌, inl, List, [], ◌∷◌, ◌++◌, take, arith, ap, sym, ◌∙◌, append_assoc, append-nil,
}
use openwrt_extra.Lmo.Text.{encode, IsText}
use openwrt_extra.Lmo.Sequences.{StartsWithPoint}

pub IsText-append : (s t : List ℕ) → IsText s → IsText t → IsText (s ++ t)
IsText-append s t IsText.empty b = b
IsText-append s t (IsText.point p {s = r} ok a e) b =
    IsText.point p ok (IsText-append r t a b) (ap (λ x. x ++ t) e ∙ append_assoc (encode p) r t)

encode-ascii : (c : ℕ) → c < 0x80 → encode c ≡ c ∷ []
unfolding encode
encode-ascii c h = ground arith

pub ascii-IsText : (c : ℕ) → 0 < c → c < 0x80 → IsText (c ∷ [])
ascii-IsText c lo hi =
    IsText.point c
      (record {
        pos = lo;
        bits = omega arith;
        no_surrogate = inl (omega arith);
        legal = inl (omega arith);
      })
      IsText.empty (sym (append-nil (encode c) ∙ encode-ascii c hi))

pub point-IsText : (s : List ℕ) (n : ℕ) → StartsWithPoint s n → IsText (take n s)
point-IsText s n h =
    IsText.point h.code_point h.is_point IsText.empty
      (h.encoded ∙ sym (append-nil (encode h.code_point)))
