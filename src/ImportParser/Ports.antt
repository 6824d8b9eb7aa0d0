-- ===== src/ImportParser/Ports.antt =====
-- Which formats of src/services/import_parser.py test the range of the port.
use proxysm.Base.{
  ◌≡◌, ◌⊎◌, refl, Bool, true, false, ◌&&◌, Option, none, some, List, [], ◌∷◌, arith, if◌then◌else◌,
  Bool-cases, Option-cases, inl, inr, map,
}
use proxysm.Base.Int.{ℤ}
use proxysm.Text.{Text, nonempty_texts, split_once, rsplit_once, parse_int, strip, to_lower}
use proxysm.ImportParser.{
  ParsedProxy, in_port_range, is_port, looks_like_host, proxy_at, with_port, strip_all,
  delimited_parts, parse_delimited, host_first, parse_at_format, is_known_protocol, third_part,
  parse_colon_parts,
}

with_port-in_range :
    (s : Text) (f : ℤ → ParsedProxy) (p : ParsedProxy)
    → ((v : ℤ) → (f v).port ≡ v)
    → is_port s ≡ true
    → with_port s f ≡ some p
    → in_port_range p.port ≡ true
unfolding is_port
with_port-in_range s f p keeps h e = elim (Option-cases (parse_int s)) [
  | inl bad ↦ ground arith
  | inr (v, good) ↦ ground (arith, keeps v)
]

-- A port that stands where a test precedes it.
tested-in_range :
    (s host : Text) (user pass : Option Text) (other : Option ParsedProxy) (p : ParsedProxy)
    → (b : Bool) → (b ≡ true → is_port s ≡ true)
    → (other ≡ some p → in_port_range p.port ≡ true)
    → (if b then with_port s (proxy_at host user pass) else other) ≡ some p
    → in_port_range p.port ≡ true
tested-in_range s host user pass other p true test rest e =
    with_port-in_range s (proxy_at host user pass) p (λ v. refl) (test refl) e
tested-in_range s host user pass other p false test rest e = rest e

port_if :
    (b : Bool) (x y : ParsedProxy) (v : ℤ) → x.port ≡ v → y.port ≡ v → (if b then x else y).port ≡ v
port_if true x y v h k = h
port_if false x y v h k = k

no_result : (p : ParsedProxy) → none ≡ some p → in_port_range p.port ≡ true
no_result p e = cc

first_true : (a b : Bool) → (a && b) ≡ true → a ≡ true
first_true a b h = ground arith

delimited_parts-in_range :
    (parts : List Text) (p : ParsedProxy)
    → delimited_parts parts ≡ some p
    → in_port_range p.port ≡ true
unfolding delimited_parts
delimited_parts-in_range [] p e = cc
delimited_parts-in_range (h ∷ []) p e = cc
delimited_parts-in_range (h ∷ s ∷ rest) p e =
    tested-in_range s h _ _ none p (is_port s) (λ t. t) (no_result p) e

host_first-in_range :
    (left right : Text) (p : ParsedProxy)
    → host_first left right ≡ some p
    → in_port_range p.port ≡ true
unfolding host_first
host_first-in_range left right p e = elim (Option-cases (rsplit_once b':' left)) [
  | inl bad ↦ ground arith
  | inr ((host, port), good) ↦
      tested-in_range port host _ _ none p (is_port port) (λ t. t) (no_result p)
        (rw (good, host_first) at e)
]

at_format-in_range :
    (line : Text) (p : ParsedProxy) → parse_at_format line ≡ some p → in_port_range p.port ≡ true
unfolding parse_at_format
at_format-in_range line p e = elim (Option-cases (split_once b'@' line).1) [
  | inl bad ↦ ground arith
  | inr (right, good) ↦
      let left = (split_once b'@' line).0 in
      elim (Option-cases (rsplit_once b':' right)) [
        | inl one ↦ host_first-in_range left right p (ground (arith, good, one))
        | inr ((host, port), two) ↦
            tested-in_range port host _ _ (host_first left right) p
              (is_port port && looks_like_host host)
              (first_true (is_port port) (looks_like_host host)) (host_first-in_range left right p)
              (rw (good, two, parse_at_format) at e)
      ]
]

colon_parts-in_range :
    (a b c : Text) (rest : List Text) (p : ParsedProxy)
    → parse_colon_parts (a ∷ b ∷ c ∷ rest) ≡ some p
    → in_port_range p.port ≡ true
unfolding parse_colon_parts third_part
colon_parts-in_range a b c [] p e = elim (Bool-cases (is_port b)) [
  | inl t ↦
      with_port-in_range b _ p
        (λ v. port_if (is_known_protocol (strip (map to_lower c))) _ _ v refl refl) t
        (rw (t, third_part) at e)
  | inr f ↦ ground arith
]
colon_parts-in_range a b c (d ∷ rest) p e =
    tested-in_range b a _ _ _ p (is_port b && looks_like_host a)
      (first_true (is_port b) (looks_like_host a))
      (λ second.
        tested-in_range d c _ _ none p (is_port d && looks_like_host c)
          (first_true (is_port d) (looks_like_host c)) (no_result p) second)
      e

-- A proxy that is read in a delimited format, with an at sign, or from three or more parts between
-- colons has a port from 1 to 65535.
pub ports_in_range :
    (p : ParsedProxy)
    → (((parts : List Text) × (parse_delimited parts ≡ some p))
        ⊎ ((line : Text) × (parse_at_format line ≡ some p))
        ⊎ ((a : Text) × (b : Text) × (c : Text) × (rest : List Text) × (parse_colon_parts
                (a ∷ b ∷ c ∷ rest)
              ≡ some p)))
    → in_port_range p.port ≡ true
unfolding parse_delimited
ports_in_range p (inl (parts, e)) = delimited_parts-in_range (nonempty_texts (strip_all parts)) p e
ports_in_range p (inr (inl (line, e))) = at_format-in_range line p e
ports_in_range p (inr (inr (a, b, c, rest, e))) = colon_parts-in_range a b c rest p e
