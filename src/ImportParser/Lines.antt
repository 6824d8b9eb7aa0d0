-- ===== src/ImportParser/Lines.antt =====
-- `parse_proxy_list` of src/services/import_parser.py: which lines count, and when it raises.
use proxysm.Base.{
  ℕ, ◌+◌, ◌≡◌, refl, Bool, true, false, ◌&&◌, ◌||◌, not, none, some, List, [], ◌∷◌, arith, ◌==◌,
  if◌then◌else◌,
}
use proxysm.Text.{Text, codes, is_empty, starts_with, strip, rstrip_by, splitlines}
use proxysm.ImportParser.{ParsedProxy, Url, parse_single_line, parse_lines, parse_proxy_list}

-- The lines that hold something: not blank, and no comment.
abbrev pub contents : List Text → List Text
contents [] = []
contents (raw ∷ rest) =
    let line = rstrip_by (λ c. c == 13) (strip raw) in
    let others = contents rest in
    if is_empty line || starts_with (codes "#") line then others else line ∷ others

abbrev pub none_of {ℓ} : {A : Type ℓ} → List A → Bool
none_of [] = true
none_of (x ∷ xs) = false

module _ (urlparse : Text → Url) where
  -- The lines that are read, in order.
  abbrev pub parsed : List Text → List ParsedProxy
  parsed [] = []
  parsed (line ∷ rest) =
      let others = parsed rest in
      elim (parse_single_line urlparse line) [ none ↦ others | some p ↦ p ∷ others ]

  results-parse_lines :
      (i : ℕ) (lines : List Text) → (parse_lines urlparse i lines).0 ≡ parsed (contents lines)
  unfolding parse_lines
  results-parse_lines i [] = refl
  results-parse_lines i (raw ∷ rest) = ground (arith, results-parse_lines (i + 1) rest)

  -- No error is recorded exactly if as many lines are read as hold something.
  errors-parse_lines :
      (i : ℕ) (lines : List Text)
      → none_of (parsed (contents lines)) ≡ true
      → none_of (parse_lines urlparse i lines).1 ≡ none_of (contents lines)
  unfolding parse_lines
  errors-parse_lines i [] h = refl
  errors-parse_lines i (raw ∷ rest) h = ground (arith, errors-parse_lines (i + 1) rest)

  -- The list holds the lines that can be read, in order; it raises exactly if some line is neither
  -- blank nor a comment and none of these can be read.
  pub parse_proxy_list_lem :
      (text : Text)
      → let lines = contents (splitlines (strip text)) in
        parse_proxy_list urlparse text
        ≡ (if none_of (parsed lines) && not (none_of lines) then none else some (parsed lines))
  unfolding parse_proxy_list
  parse_proxy_list_lem text =
      let lines = splitlines (strip text) in
      ground (arith, results-parse_lines 1 lines, errors-parse_lines 1 lines)
