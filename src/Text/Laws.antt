-- ===== src/Text/Laws.antt =====
-- Laws of searching and splitting.
use proxysm.Base.{
  refl, ap, Option, none, some, ℕ, ◌≡◌, refl, true, false, ◌||◌, none, some, [], ◌∷◌, ◌++◌, arith,
  ◌==◌, ==_refl,
}
use proxysm.Text.{
  text_eq, option_eq, Text, has, has_text, starts_with, behind_prefix, split_on, split_once,
  rsplit_once,
}

pub has-append : (c : ℕ) (s t : Text) → has c (s ++ t) ≡ (has c s || has c t)
has-append c [] t = refl
has-append c (x ∷ s) t = ground (arith, has-append c s t)

pub has_cons_free :
    (c x : ℕ) (s : Text) → (x == c) ≡ false → has c s ≡ false → has c (x ∷ s) ≡ false
has_cons_free c x s e h = ground arith

pub has_append_free :
    (c : ℕ) (s t : Text) → has c s ≡ false → has c t ≡ false → has c (s ++ t) ≡ false
has_append_free c s t h k = rw (has-append c s t, h, k)

starts_with-has :
    (c : ℕ) (sub s : Text) → starts_with sub s ≡ true → has c sub ≡ true → has c s ≡ true
starts_with-has c [] s h k = cc
starts_with-has c (p ∷ ps) [] h k = cc
starts_with-has c (p ∷ ps) (x ∷ s) h k = ground (arith, starts_with-has c ps s)

-- A text without a character of `sub` does not hold `sub`.
pub has_text_free :
    (c : ℕ) (sub s : Text) → has c sub ≡ true → has c s ≡ false → has_text sub s ≡ false
has_text_free c [] s k h = cc
has_text_free c (p ∷ ps) [] k h = refl
has_text_free c (p ∷ ps) (x ∷ s) k h =
    ground (arith, starts_with-has c (p ∷ ps) (x ∷ s), has_text_free c (p ∷ ps) s)

pub split_on_free : (c : ℕ) (s : Text) → has c s ≡ false → split_on c s ≡ s ∷ []
split_on_free c [] h = refl
split_on_free c (x ∷ s) h = ground (arith, split_on_free c s)

pub split_on-append :
    (c : ℕ) (s r : Text) → has c s ≡ false → split_on c (s ++ c ∷ r) ≡ s ∷ split_on c r
split_on-append c [] r h = rw ==_refl
split_on-append c (x ∷ s) r h = ground (arith, split_on-append c s r)

pub split_once-append :
    (c : ℕ) (s r : Text) → has c s ≡ false → split_once c (s ++ c ∷ r) ≡ (s, some r)
split_once-append c [] r h = rw ==_refl
split_once-append c (x ∷ s) r h = ground (arith, split_once-append c s r)

pub split_once_free : (c : ℕ) (s : Text) → has c s ≡ false → split_once c s ≡ (s, none)
split_once_free c [] h = refl
split_once_free c (x ∷ s) h = ground (arith, split_once_free c s)

pub rsplit_once_free : (c : ℕ) (s : Text) → has c s ≡ false → rsplit_once c s ≡ none
rsplit_once_free c [] h = refl
rsplit_once_free c (x ∷ s) h = ground (arith, rsplit_once_free c s)

pub rsplit_once-append :
    (c : ℕ) (s r : Text) → has c r ≡ false → rsplit_once c (s ++ c ∷ r) ≡ some (s, r)
rsplit_once-append c [] r h = ground (arith, rsplit_once_free c r h, ==_refl c)
rsplit_once-append c (x ∷ s) r h = ground (arith, rsplit_once-append c s r h)

pub has_middle : (c : ℕ) (s t : Text) → has c (s ++ c ∷ t) ≡ true
has_middle c [] t = ground (arith, ==_refl c)
has_middle c (x ∷ s) t = ground (arith, has_middle c s t)

pub text_eq-eq : (s t : Text) → text_eq s t ≡ true → s ≡ t
text_eq-eq [] [] h = refl
text_eq-eq [] (y ∷ t) h = cc
text_eq-eq (x ∷ s) [] h = cc
text_eq-eq (x ∷ s) (y ∷ t) h = ground (arith, text_eq-eq s t)

pub text_eq_refl : (s : Text) → text_eq s s ≡ true
text_eq_refl [] = refl
text_eq_refl (x ∷ s) = ground (arith, text_eq_refl s)

pub option_eq-eq : (o u : Option Text) → option_eq o u ≡ true → o ≡ u
option_eq-eq none none h = refl
option_eq-eq none (some t) h = cc
option_eq-eq (some s) none h = cc
option_eq-eq (some s) (some t) h = ap some (text_eq-eq s t h)

pub option_eq_refl : (o : Option Text) → option_eq o o ≡ true
option_eq_refl none = refl
option_eq_refl (some s) = text_eq_refl s

pub behind_prefix-join : (p s r : Text) → behind_prefix p s ≡ some r → s ≡ p ++ r
behind_prefix-join [] s r h = let same : s ≡ r = cc in same
behind_prefix-join (x ∷ p) [] r h = cc
behind_prefix-join (x ∷ p) (y ∷ s) r h = ground (arith, behind_prefix-join p s r)

pub behind_prefix-append : (p r : Text) → behind_prefix p (p ++ r) ≡ some r
behind_prefix-append [] r = refl
behind_prefix-append (x ∷ p) r = ground (arith, behind_prefix-append p r, ==_refl x)
