-- ===== src/HttpProxy/Letters.antt =====
-- A codec for the examples: each code as that many letters, in place of UTF-8 and base64.
use proxysm.Base.{
  ℕ, zero, suc, ◌+◌, ◌≡◌, refl, ap, ◌∙◌, true, false, Option, none, some, [], ◌∷◌, arith, All, ◌==◌,
  if◌then◌else◌,
}
use proxysm.Text.{Text, is_digit}
use proxysm.HttpProxy.{Codec, is_base64}

-- Each code as that many letters, and a stroke.
abbrev pub letters : ℕ → Text → Text
letters zero s = s
letters (suc n) s = b'A' ∷ letters n s

abbrev pub to_letters : Text → Text
to_letters [] = []
to_letters (x ∷ s) = letters x (b'/' ∷ to_letters s)

abbrev pub from_letters : ℕ → Text → Option Text
from_letters n [] = if n == 0 then some [] else none
from_letters n (x ∷ s) = elim (x == b'/') [
  | true ↦ (elim (from_letters 0 s) [ none ↦ none | some r ↦ some (n ∷ r) ])
  | false ↦ from_letters (n + 1) s
]

from_letters-letters :
    (n x k : ℕ) (s : Text) → n + x ≡ k → from_letters n (letters x s) ≡ from_letters k s
from_letters-letters n zero k s e = ap (λ m. from_letters m s) (omega arith)
from_letters-letters n (suc x) k s e = from_letters-letters (n + 1) x k s (omega arith)

pub from-to_letters : (s : Text) → from_letters 0 (to_letters s) ≡ some s
from-to_letters [] = refl
from-to_letters (x ∷ s) =
    from_letters-letters 0 x x (b'/' ∷ to_letters s) (omega arith)
    ∙ rw (from-to_letters s, from_letters) refl

All-letters :
    (n : ℕ) (s : Text)
    → All (λ c. is_base64 c ≡ true) s
    → All (λ c. is_base64 c ≡ true) (letters n s)
unfolding is_digit
All-letters zero s h = h
All-letters (suc n) s h = (refl, All-letters n s h)

pub All-to_letters : (s : Text) → All (λ c. is_base64 c ≡ true) (to_letters s)
unfolding is_digit
All-to_letters [] = tt
All-to_letters (x ∷ s) = All-letters x (b'/' ∷ to_letters s) (refl, All-to_letters s)

abbrev pub same : Text → Text
same s = s

abbrev pub codec : Codec
codec = record {
  decode = same;
  encode = same;
  b64encode = to_letters;
  b64decode = from_letters 0;
  decode_nil = refl;
  b64decode_nil = refl;
  decode-encode = λ s. refl;
  b64decode-b64encode = from-to_letters;
  b64encode_alphabet = All-to_letters;
}
