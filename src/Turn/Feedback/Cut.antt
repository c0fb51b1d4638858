-- ===== src/Turn/Feedback/Cut.antt =====
-- What is kept of the provider's message.

use Prim.Native.Char.{code}
use nu_agent.Prelude.{
  ℕ, ◌+◌, ◌-◌, ◌≤◌, ◌≡◌, refl, ap, String, leb, arith, ◌<◌, Bool-cases, inl, inr,
}
use nu_agent.Turn.Feedback.{utf8_bytes, cut_at_char_boundary}

-- The length of a text in bytes.
unfoldable pub byte_length : String → ℕ
unfolding utf8_bytes
byte_length String.[] = 0
byte_length (String.◌∷◌ c s) = utf8_bytes (code c) + byte_length s

-- A cut text has at most the bytes allowed, and a text with at most so many is kept whole.
cut_at_char_boundary-fits :
    (s : String) (n : ℕ)
    → (byte_length (cut_at_char_boundary s n) ≤ n)
      × (byte_length s ≤ n → cut_at_char_boundary s n ≡ s)
unfolding byte_length cut_at_char_boundary
cut_at_char_boundary-fits String.[] n = (omega arith, λ h. refl)
cut_at_char_boundary-fits (String.◌∷◌ c s) n =
    let (l, k) = cut_at_char_boundary-fits s (n - utf8_bytes (code c)) in
    elim (Bool-cases (leb (utf8_bytes (code c)) n)) [
      | inl fits ↦
          let room : utf8_bytes (code c) ≤ n = ground (arith, fits) in
          rw (fits, cut_at_char_boundary) (omega arith, λ h. ap (String.◌∷◌ c) (k (omega arith)))
      | inr full ↦
          let none_left : n < utf8_bytes (code c) = ground (arith, full) in
          rw (full, cut_at_char_boundary) (omega arith, λ h. absurd (omega arith))
    ]
