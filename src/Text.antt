-- ===== src/Text.antt =====
-- Texts as lists of code points, and the methods of Python's `str` that the program calls. Digits
-- and word characters are the ASCII ones; `int` and a pattern's `\d` and `\w` also take others.
pub mod Laws
pub mod Decimal
pub mod Split
use proxysm.Base.{
  ℕ, zero, suc, ◌+◌, ◌-◌, ◌*◌, String, Bool, true, false, not, ◌&&◌, ◌||◌, Option, none, some, List,
  [], ◌∷◌, ltb, leb, ◌==◌, if◌then◌else◌,
}
use proxysm.Base.Int.{ℤ, pos, negsuc}
use Prim.Native.Char.{code}

abbrev pub Text : Type 0
Text = List ℕ

-- A literal.
abbrev pub codes : String → Text
codes String.[] = []
codes (String.◌∷◌ c s) = code c ∷ codes s

abbrev pub text_eq : Text → Text → Bool
text_eq [] [] = true
text_eq (x ∷ xs) (y ∷ ys) = x == y && text_eq xs ys
text_eq _ _ = false

abbrev pub option_eq : Option Text → Option Text → Bool
option_eq none none = true
option_eq (some s) (some t) = text_eq s t
option_eq _ _ = false

abbrev pub is_empty : Text → Bool
is_empty [] = true
is_empty (x ∷ xs) = false

abbrev pub starts_with : Text → Text → Bool
starts_with [] xs = true
starts_with (p ∷ ps) [] = false
starts_with (p ∷ ps) (x ∷ xs) = x == p && starts_with ps xs

-- `s[len(p):]` of a text that starts with `p`.
abbrev pub behind_prefix : Text → Text → Option Text
behind_prefix [] xs = some xs
behind_prefix (p ∷ ps) [] = none
behind_prefix (p ∷ ps) (x ∷ xs) = let rest = behind_prefix ps xs in if x == p then rest else none

-- `c in s`
abbrev pub has : ℕ → Text → Bool
has c [] = false
has c (x ∷ xs) = x == c || has c xs

-- `sub in s`
abbrev pub has_text : Text → Text → Bool
has_text sub [] = is_empty sub
has_text sub (x ∷ xs) = starts_with sub (x ∷ xs) || has_text sub xs

-- `str.isspace`
unfoldable pub is_space : ℕ → Bool
is_space c =
    leb 9 c && leb c 13
    || leb 28 c && leb c 32
    || c == 133
    || c == 160
    || c == 5760
    || leb 8192 c && leb c 8202
    || c == 8232
    || c == 8233
    || c == 8239
    || c == 8287
    || c == 12288

abbrev pub push : ℕ → List Text → List Text
push x [] = (x ∷ []) ∷ []
push x (w ∷ ws) = (x ∷ w) ∷ ws

abbrev pub split_by : (ℕ → Bool) → Text → List Text
split_by p [] = [] ∷ []
split_by p (x ∷ xs) = let rest = split_by p xs in if p x then [] ∷ rest else push x rest

-- `s.split(c)`
abbrev pub split_on : ℕ → Text → List Text
split_on c = split_by (λ x. x == c)

abbrev pub nonempty_texts : List Text → List Text
nonempty_texts [] = []
nonempty_texts (w ∷ ws) = let rest = nonempty_texts ws in if is_empty w then rest else w ∷ rest

-- `s.split()`
unfoldable pub words : Text → List Text
unfolding is_space
words s = nonempty_texts (split_by is_space s)

-- `s.split(c, 1)`: what stands before the first `c`, and what behind it.
abbrev pub split_once : ℕ → Text → Text × Option Text
split_once c [] = ([], none)
split_once c (x ∷ xs) =
    let rest = split_once c xs in if x == c then ([], some xs) else (x ∷ rest.0, rest.1)

-- `s.rsplit(c, 1)`, if there is a `c`.
abbrev pub rsplit_once : ℕ → Text → Option (Text × Text)
rsplit_once c [] = none
rsplit_once c (x ∷ xs) = elim (rsplit_once c xs) [
  | some (a, b) ↦ some (x ∷ a, b)
  | none ↦ if x == c then some ([], xs) else none
]

abbrev pub lstrip_by : (ℕ → Bool) → Text → Text
lstrip_by p [] = []
lstrip_by p (x ∷ xs) = let rest = lstrip_by p xs in if p x then rest else x ∷ xs

abbrev pub rstrip_by : (ℕ → Bool) → Text → Text
rstrip_by p [] = []
rstrip_by p (x ∷ xs) = let rest = rstrip_by p xs in if is_empty rest && p x then [] else x ∷ rest

-- `s.strip()`
unfoldable pub strip : Text → Text
unfolding is_space
strip s = rstrip_by is_space (lstrip_by is_space s)

-- The line boundaries of `str.splitlines`.
unfoldable pub is_line_break : ℕ → Bool
is_line_break c = leb 10 c && leb c 13 || leb 28 c && leb c 30 || c == 133 || c == 8232 || c == 8233

-- The segments between the boundaries; `after_cr` says that a carriage return stands before.
unfoldable pub segments : Bool → Text → List Text
unfolding is_line_break
segments after_cr [] = [] ∷ []
segments after_cr (x ∷ xs) =
    let joined = segments false xs in
    let next = segments (x == 13) xs in
    if after_cr && x == 10 then joined else if is_line_break x then [] ∷ next else push x next

abbrev pub drop_last_empty : List Text → List Text
drop_last_empty [] = []
drop_last_empty (w ∷ []) = if is_empty w then [] else w ∷ []
drop_last_empty (w ∷ v ∷ ws) = w ∷ drop_last_empty (v ∷ ws)

-- `s.splitlines()`
unfoldable pub splitlines : Text → List Text
unfolding segments
splitlines s = drop_last_empty (segments false s)

unfoldable pub is_digit : ℕ → Bool
is_digit c = leb b'0' c && leb c b'9'

-- The digits of a number, one `_` between two of them; `ready` says that a digit stands before.
unfoldable pub digits : Bool → ℕ → Text → Option ℕ
unfolding is_digit
digits ready n [] = if ready then some n else none
digits ready n (c ∷ cs) =
    let here = digits true (n * 10 + (c - 48)) cs in
    let next = digits false n cs in
    if is_digit c then here else if ready && c == b'_' then next else none

abbrev pub negate : ℕ → ℤ
negate zero = pos 0
negate (suc n) = negsuc n

abbrev pub map_number : (ℕ → ℤ) → Option ℕ → Option ℤ
map_number f none = none
map_number f (some n) = some (f n)

unfoldable pub signed : Text → Option ℤ
unfolding digits
signed [] = none
signed (c ∷ cs) =
    if c == b'-'
    then map_number negate (digits false 0 cs)
    else if c == b'+'
    then map_number pos (digits false 0 cs)
    else map_number pos (digits false 0 (c ∷ cs))

-- `int(s)`; `none` is a `ValueError`.
unfoldable pub parse_int : Text → Option ℤ
unfolding strip signed
parse_int s = signed (strip s)

unfoldable pub to_lower : ℕ → ℕ
to_lower c = if leb b'A' c && leb c b'Z' then c + 32 else c
