-- ===== src/Bandwidth/Totals.antt =====
-- What the accumulator of src/services/bandwidth.py holds.
use proxysm.Base.{
  ◌≡◌, refl, ap, subst, ◌∙◌, Bool, true, false, Option, none, some, List, [], ◌∷◌, arith,
  if◌then◌else◌, Bool-cases, Option-cases, inl, inr,
}
use proxysm.Base.Int.{ℤ}
use proxysm.Text.{Text}
use proxysm.Text.Laws.{text_eq-eq, text_eq_refl}
use proxysm.Bandwidth.{
  AccKey, acc_key_eq, Bytes, no_bytes, read_counter, add_bytes, add_counter, accumulate,
}

pub acc_key_eq-eq : (j k : AccKey) → acc_key_eq j k ≡ true → j ≡ k
acc_key_eq-eq (a, b) (c, d) h = ground (arith, text_eq-eq a c, text_eq-eq b d)

pub acc_key_eq_flip : (j k : AccKey) → acc_key_eq j k ≡ true → acc_key_eq k j ≡ true
acc_key_eq_flip (a, b) (c, d) h =
    ground (arith, text_eq-eq a c, text_eq-eq b d, text_eq_refl a, text_eq_refl b)

-- The bytes of an entity in the accumulator.
abbrev pub bytes_of : AccKey → List (AccKey × Bytes) → Bytes
bytes_of k [] = no_bytes
bytes_of k ((j, b) ∷ l) = let rest = bytes_of k l in if acc_key_eq j k then b else rest

-- The sum of the counters of one entity, on top of `start`.
abbrev pub total : AccKey → List (Text × Option Text) → Bytes → Bytes
total k [] start = start
total k ((key, value) ∷ rest) start = elim (read_counter key value) [
  | none ↦ total k rest start
  | some (j, is_sent, n) ↦
      total k rest (if acc_key_eq j k then add_bytes is_sent n start else start)
]

bytes_of-add_counter :
    (k j : AccKey) (is_sent : Bool) (n : ℤ) (l : List (AccKey × Bytes))
    → bytes_of k (add_counter j is_sent n l)
      ≡ (if acc_key_eq j k then add_bytes is_sent n (bytes_of k l) else bytes_of k l)
unfolding add_counter
bytes_of-add_counter k j is_sent n [] = refl
bytes_of-add_counter k j is_sent n ((i, b) ∷ l) = elim (Bool-cases (acc_key_eq i j)) [
  | inl same ↦ rw same (rw (acc_key_eq-eq i j same) (ground arith))
  | inr differs ↦ rw differs (elim (Bool-cases (acc_key_eq i k)) [
    | inl at_k ↦
        let not_j : acc_key_eq j k ≡ false = elim (Bool-cases (acc_key_eq j k)) [
          | inl f ↦
              let k_is : k ≡ j = acc_key_eq-eq k j (acc_key_eq_flip j k f) in
              let eq : acc_key_eq i j ≡ true = subst (λ x. acc_key_eq i x ≡ true) k_is at_k in cc
          | inr f ↦ f
        ] in
        rw (at_k, not_j)
    | inr off ↦ rw off (bytes_of-add_counter k j is_sent n l)
  ])
]

bytes_of-accumulate_from :
    (k : AccKey) (counters : List (Text × Option Text)) (acc : List (AccKey × Bytes))
    → bytes_of k (accumulate counters acc) ≡ total k counters (bytes_of k acc)
unfolding accumulate
bytes_of-accumulate_from k [] acc = refl
bytes_of-accumulate_from k ((key, value) ∷ rest) acc =
    elim (Option-cases (read_counter key value)) [
      | inl e ↦ rw (e, accumulate, total) (bytes_of-accumulate_from k rest acc)
      | inr ((j, is_sent, n), e) ↦
          rw (e, accumulate, total)
            (bytes_of-accumulate_from k rest (add_counter j is_sent n acc)
              ∙ ap (total k rest) (bytes_of-add_counter k j is_sent n acc))
    ]

-- For every entity the accumulator holds the sums of its valid counters, in each direction, and
-- nothing for an entity without one.
pub bytes_of-accumulate :
    (k : AccKey) (counters : List (Text × Option Text))
    → bytes_of k (accumulate counters []) ≡ total k counters no_bytes
bytes_of-accumulate k counters = bytes_of-accumulate_from k counters []
