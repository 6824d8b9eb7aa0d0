-- ===== src/RequestLogger/Tests.antt =====
-- The counters as a list of keys with numbers, and examples for the request logger.
use proxysm.Base.{
  ℕ, ◌+◌, ◌≡◌, refl, ap, sym, ◌∙◌, true, false, ◌&&◌, Option, none, some, List, [], ◌∷◌, arith,
  if◌then◌else◌, All, Any, Bool-cases, Option-cases, inl, inr, ◌==◌,
}
use proxysm.Base.Int.{pos}
use proxysm.Text.{Text, codes, text_eq}
use proxysm.Text.Laws.{text_eq-eq, text_eq_refl}
use proxysm.Text.Decimal.{print, parse_int-print}
use proxysm.Text.{parse_int}
use proxysm.Bandwidth.{accumulate}
use proxysm.Bandwidth.Totals.{bytes_of}
use proxysm.RequestLogger.{Counters, IsBw, RequestLog, bw_key, read_counters}
use proxysm.RequestLogger.Flow.{adds_each, update_each}
use proxysm.RequestLogger.Conserved.{flush_conserves}

abbrev Numbers : Type 0
Numbers = List (Text × ℕ)

abbrev number_at : Numbers → Text → Option ℕ
number_at [] k = none
number_at ((j, n) ∷ s) k = let rest = number_at s k in if text_eq j k then some n else rest

abbrev printed : Option ℕ → Option Text
printed none = none
printed (some n) = some (print n)

abbrev or_zero : Option ℕ → ℕ
or_zero none = 0
or_zero (some n) = n

abbrev without : Text → Numbers → Numbers
without k [] = []
without k ((j, n) ∷ s) = let rest = without k s in if text_eq j k then rest else (j, n) ∷ rest

-- What follows "bw:".
abbrev behind : Text → Option Text
behind (a ∷ b ∷ c ∷ r) = if a == b'b' && b == b'w' && c == b':' then some r else none
behind _ = none

abbrev bw_keys : Numbers → List Text
bw_keys [] = []
bw_keys ((k, n) ∷ s) = let rest = bw_keys s in elim (behind k) [ none ↦ rest | some r ↦ k ∷ rest ]

print_injective : (m n : ℕ) → print m ≡ print n → m ≡ n
print_injective m n e =
    let same : Path _ (some (pos m)) (some (pos n)) =
      sym (parse_int-print m) ∙ ap parse_int e ∙ parse_int-print n in
    cc

or_zero_of : (o : Option ℕ) (m : ℕ) → printed o ≡ some (print m) → or_zero o ≡ m
or_zero_of none m h = cc
or_zero_of (some n) m h = let same : print n ≡ print m = cc in print_injective n m same

or_zero-none : (o : Option ℕ) → printed o ≡ none → or_zero o ≡ 0
or_zero-none none h = refl
or_zero-none (some n) h = cc

number_at-without :
    (k j : Text) (s : Numbers)
    → printed (number_at (without k s) j) ≡ (if text_eq k j then none else printed (number_at s j))
number_at-without k j [] = ground arith
number_at-without k j ((i, n) ∷ s) = elim (Bool-cases (text_eq i k)) [
  | inl same ↦ rw (same, text_eq-eq i k same) (number_at-without k j s ∙ ground arith)
  | inr other ↦ elim (Bool-cases (text_eq i j)) [
    | inr differs ↦ rw (other, differs) (number_at-without k j s)
    | inl same ↦
        let apart : text_eq k j ≡ false = elim (Bool-cases (text_eq k j)) [
          | inr f ↦ f
          | inl eq ↦
              let i_is_k : i ≡ k = text_eq-eq i j same ∙ sym (text_eq-eq k j eq) in
              let found : text_eq i k ≡ true = ap (text_eq i) (sym i_is_k) ∙ text_eq_refl i in cc
        ] in
        rw (other, same, apart) refl
  ]
]

behind-IsBw : (k r : Text) → behind k ≡ some r → IsBw k
behind-IsBw (a ∷ b ∷ c ∷ r) r' h = elim (Bool-cases (a == b'b' && b == b'w' && c == b':')) [
  | inr f ↦ ground (arith, f)
  | inl e ↦
      let a_is : a ≡ b'b' = ground (arith, e) in
      let b_is : b ≡ b'w' = ground (arith, e) in
      let c_is : c ≡ b':' = ground (arith, e) in (r, rw (a_is, b_is, c_is) refl)
]
behind-IsBw [] r' h = cc
behind-IsBw (a ∷ []) r' h = cc
behind-IsBw (a ∷ b ∷ []) r' h = cc

bw_keys-IsBw : (s : Numbers) → All IsBw (bw_keys s)
bw_keys-IsBw [] = tt
bw_keys-IsBw ((k, n) ∷ s) = elim (Option-cases (behind k)) [
  | inl e ↦ rw (e, bw_keys) (bw_keys-IsBw s)
  | inr (r, e) ↦ rw (e, bw_keys) (behind-IsBw k r e, bw_keys-IsBw s)
]

bw_keys_complete :
    (s : Numbers) (k v : Text)
    → IsBw k
    → printed (number_at s k) ≡ some v
    → Any (λ j. j ≡ k) (bw_keys s)
bw_keys_complete [] k v bw h = cc
bw_keys_complete ((j, n) ∷ s) k v (r, k_is) h = elim (Bool-cases (text_eq j k)) [
  | inl same ↦
      let j_is : j ≡ k = text_eq-eq j k same in
      let matches : behind j ≡ some r = ap behind (j_is ∙ k_is) in rw (matches, bw_keys) (inl j_is)
  | inr other ↦
      let later = bw_keys_complete s k v (r, k_is) (rw other at h) in
      elim (Option-cases (behind j)) [
        | inl e ↦ rw (e, bw_keys) later
        | inr (q, e) ↦ rw (e, bw_keys) (inr later)
      ]
]

abbrev memory : Counters
memory = record {
  Store = Numbers;
  get = λ s k. printed (number_at s k);
  incrby = λ k n s. (k, or_zero (number_at s k) + n) ∷ s;
  getdel = λ k s. (printed (number_at s k), without k s);
  scan = bw_keys;
  get-incrby_new = λ k n s h. rw (text_eq_refl k) (
      ap (λ m. some (print (m + n))) (or_zero-none (number_at s k) h)
      ∙ ap (λ m. some (print m)) (omega arith));
  get-incrby = λ k n m s h. rw (text_eq_refl k, or_zero_of (number_at s k) m h) refl;
  get-incrby_other = λ k j n s other. rw other refl;
  getdel_reply = λ k s. refl;
  get-getdel = number_at-without;
  scan_matches = bw_keys-IsBw;
  scan_complete = bw_keys_complete;
}

abbrev one_request : RequestLog
one_request = record {
  project_id = codes "1";
  pool_id = codes "7";
  proxy_id = codes "3";
  status_code = 200;
  response_time_ms = 120;
  bytes_sent = 300;
  bytes_received = 4000;
  target_domain = codes "example.org";
  error_type = none;
  created_at = 500;
}

flush_conserves_example :
    bytes_of
      (codes "proxy", codes "3")
      (accumulate
        (read_counters memory (update_each memory (one_request ∷ one_request ∷ []) [])).0
        [])
    ≡ record {
      sent = pos (
          adds_each memory
            (one_request ∷ one_request ∷ [])
            (bw_key (codes "proxy") (codes "3") (codes "sent")));
      recv = pos (
          adds_each memory
            (one_request ∷ one_request ∷ [])
            (bw_key (codes "proxy") (codes "3") (codes "recv")));
    }
flush_conserves_example =
    flush_conserves (codes "proxy") (codes "3") refl refl refl memory
      (one_request ∷ one_request ∷ []) [] (λ k. refl)

-- The six keys of a request are different, so that each direction counts once.
both_counted :
    adds_each memory
      (one_request ∷ one_request ∷ [])
      (bw_key (codes "proxy") (codes "3") (codes "recv"))
    ≡ 8000
both_counted = refl
