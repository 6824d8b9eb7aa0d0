-- ===== src/Text/Decimal.antt =====
-- `str` of a number, and `int` of what it gives.
use proxysm.Base.{
  ℕ, zero, suc, ◌+◌, ◌-◌, ◌*◌, ◌/◌, ◌%◌, ◌≤◌, ◌≡◌, refl, ap, ◌∙◌, Bool, true, false, some, [], ◌∷◌,
  arith, ltb, if◌then◌else◌, All, Bool-cases, inl, inr,
}
use proxysm.Base.Int.{pos}
use proxysm.Text.{
  Text, is_space, lstrip_by, rstrip_by, strip, is_digit, digits, map_number, signed, parse_int, has,
}

-- The digits of `n` before `acc`, with `fuel` digits at most.
pub print_from : ℕ → ℕ → Text → Text
print_from zero n acc = acc
print_from (suc fuel) n acc =
    let more = print_from fuel (n / 10) ((n % 10 + b'0') ∷ acc) in
    if ltb n 10 then (n + b'0') ∷ acc else more

-- `str(n)`; a number has no more digits than its successor says.
unfoldable pub print : ℕ → Text
unfolding print_from
print n = print_from (suc n) n []

digits-print_from :
    (fuel n : ℕ) (ready : Bool) (acc : Text)
    → suc n ≤ fuel
    → digits ready 0 (print_from fuel n acc) ≡ digits true n acc
unfolding print_from digits is_digit
digits-print_from zero n ready acc h = absurd (omega arith)
digits-print_from (suc fuel) n ready acc h = elim (Bool-cases (ltb n 10)) [
  | inl small ↦ rw small (ground arith)
  | inr large ↦ rw large (
      let digit : is_digit (n % 10 + b'0') ≡ true = ground arith in
      let back : n / 10 * 10 + (n % 10 + b'0' - 48) ≡ n = omega arith in
      digits-print_from fuel (n / 10) ready ((n % 10 + b'0') ∷ acc) (ground arith)
      ∙ rw (digit, back))
]

All-print_from :
    (fuel n : ℕ) (acc : Text)
    → All (λ c. is_digit c ≡ true) acc
    → All (λ c. is_digit c ≡ true) (print_from fuel n acc)
unfolding print_from is_digit
All-print_from zero n acc h = h
All-print_from (suc fuel) n acc h = elim (Bool-cases (ltb n 10)) [
  | inl small ↦ rw small (ground arith, h)
  | inr large ↦ rw large (All-print_from fuel (n / 10) ((n % 10 + b'0') ∷ acc) (ground arith, h))
]

-- Nothing is stripped where nothing at the ends is a blank.
lstrip_by_free : (p : ℕ → Bool) (s : Text) → All (λ c. p c ≡ false) s → lstrip_by p s ≡ s
lstrip_by_free p [] h = refl
lstrip_by_free p (c ∷ s) (h, hs) = rw h

rstrip_by_free : (p : ℕ → Bool) (s : Text) → All (λ c. p c ≡ false) s → rstrip_by p s ≡ s
rstrip_by_free p [] h = refl
rstrip_by_free p (c ∷ s) (h, hs) = ground (arith, rstrip_by_free p s hs)

All-space : (s : Text) → All (λ c. is_digit c ≡ true) s → All (λ c. is_space c ≡ false) s
unfolding is_digit is_space
All-space [] h = tt
All-space (c ∷ s) (h, hs) = (ground arith, All-space s hs)

strip-digits : (s : Text) → All (λ c. is_digit c ≡ true) s → strip s ≡ s
unfolding strip
strip-digits s h =
    let free = All-space s h in
    ap (rstrip_by is_space) (lstrip_by_free is_space s free) ∙ rstrip_by_free is_space s free

signed-digits :
    (s : Text) → All (λ c. is_digit c ≡ true) s → signed s ≡ map_number pos (digits false 0 s)
unfolding signed is_digit digits
signed-digits [] h = refl
signed-digits (c ∷ cs) (h, hs) = ground arith

-- `int(str(n))` is `n`.
pub parse_int-print : (n : ℕ) → parse_int (print n) ≡ some (pos n)
unfolding parse_int print
parse_int-print n =
    let all = All-print_from (suc n) n [] tt in
    ap signed (strip-digits (print_from (suc n) n []) all)
    ∙ signed-digits (print_from (suc n) n []) all
    ∙ ap (map_number pos) (digits-print_from (suc n) n false [] (omega arith))

has-digits :
    (x : ℕ) (s : Text) → is_digit x ≡ false → All (λ c. is_digit c ≡ true) s → has x s ≡ false
unfolding is_digit
has-digits x [] e h = refl
has-digits x (c ∷ s) e (here, all) = ground (arith, has-digits x s e all)

-- What is no digit is not in the text of a number.
pub has-print : (x n : ℕ) → is_digit x ≡ false → has x (print n) ≡ false
unfolding print
has-print x n e = has-digits x (print_from (suc n) n []) e (All-print_from (suc n) n [] tt)
