-- ===== src/RequestLogger/Scan.antt =====
-- What the loop of `flush_bandwidth` (src/services/bandwidth.py) reads from one key that
-- `_update_bandwidth_counters` (src/services/request_logger.py) has written.
use proxysm.Base.{
  ℕ, ◌+◌, ◌≡◌, ◌⊎◌, refl, ap, sym, ◌∙◌, Bool, true, false, ◌&&◌, ◌||◌, Option, none, some, List, [],
  ◌∷◌, ◌++◌, arith, if◌then◌else◌, Bool-cases, Option-cases, inl, inr,
}
use proxysm.Base.Int.{ℤ, pos, ◌+ℤ◌}
use proxysm.Text.{Text, codes, text_eq, has, split_on}
use proxysm.Text.Laws.{text_eq-eq, text_eq_refl, split_on-append, split_on_free}
use proxysm.Text.Split.{join, join-split_on}
use proxysm.Text.Decimal.{print, parse_int-print}
use proxysm.Bandwidth.{
  AccKey, acc_key_eq, Bytes, valid_entity_type, read_parts, read_counter, add_bytes,
}
use proxysm.Bandwidth.Totals.{total}
use proxysm.RequestLogger.{IsBw, bw_key}

pos_add : (a b : ℕ) → (pos a +ℤ pos b) ≡ pos (a + b)
unfolding ◌+ℤ◌
pos_add a b = ground arith

module _ (entity_type id : Text) (valid : valid_entity_type entity_type ≡ true)
    (type_free : has b':' entity_type ≡ false) (id_free : has b':' id ≡ false) where
  abbrev pub own : AccKey
  own = (entity_type, id)

  abbrev direction : Bool → Text
  direction is_sent = if is_sent then codes "sent" else codes "recv"

  abbrev pub key_of : Bool → Text
  key_of is_sent = bw_key entity_type id (direction is_sent)

  direction_free : (is_sent : Bool) → has b':' (direction is_sent) ≡ false
  direction_free true = refl
  direction_free false = refl

  -- What the loop reads from a key of the entity.
  read_counter-own :
      (is_sent : Bool) (n : ℕ)
      → read_counter (key_of is_sent) (some (print n)) ≡ some (own, is_sent, pos n)
  unfolding read_counter read_parts
  read_counter-own is_sent n =
      let d = direction is_sent in
      let parts : split_on b':' (entity_type ++ b':' ∷ (id ++ b':' ∷ d))
          ≡ entity_type ∷ id ∷ d ∷ [] =
        split_on-append b':' entity_type (id ++ b':' ∷ d) type_free
        ∙ ap (λ l. entity_type ∷ l) (split_on-append b':' id d id_free)
        ∙ ap (λ l. entity_type ∷ id ∷ l) (split_on_free b':' d (direction_free is_sent)) in
      ap (λ l. read_parts (codes "bw" ∷ l) (print n)) parts ∙ by_direction is_sent
    where
      by_direction :
          (is_sent : Bool)
          → read_parts (codes "bw" ∷ entity_type ∷ id ∷ direction is_sent ∷ []) (print n)
            ≡ some (own, is_sent, pos n)
      by_direction true = rw (valid, parse_int-print n)
      by_direction false = rw (valid, parse_int-print n)

  direction_is :
      (d : Text) (is_sent : Bool)
      → (text_eq d (codes "sent") || text_eq d (codes "recv")) ≡ true
      → text_eq d (codes "sent") ≡ is_sent
      → d ≡ direction is_sent
  direction_is d true either e = text_eq-eq d (codes "sent") e
  direction_is d false either e = text_eq-eq d (codes "recv") (ground arith)

  -- Only the keys of the entity are read for it.
  read_parts-own :
      (r : Text) (ws : List Text) (n : ℕ) (j : AccKey) (is_sent : Bool) (v : ℤ)
      → split_on b':' r ≡ ws
      → read_parts (codes "bw" ∷ ws) (print n) ≡ some (j, is_sent, v)
      → acc_key_eq j own ≡ true
      → codes "bw:" ++ r ≡ key_of is_sent
  unfolding read_parts
  read_parts-own r (a ∷ b ∷ d ∷ []) n j is_sent v e h same =
      let either = text_eq d (codes "sent") || text_eq d (codes "recv") in
      elim (Bool-cases (valid_entity_type a && either)) [
        | inr fails ↦ ground (arith, fails)
        | inl passes ↦
            let read : Path (Option (AccKey × Bool × ℤ))
                (some ((a, b), text_eq d (codes "sent"), pos n)) (some (j, is_sent, v)) =
              rw (passes, parse_int-print n, read_parts) at h in
            let which : text_eq d (codes "sent") ≡ is_sent = cc in
            let owner : acc_key_eq (a, b) own ≡ true =
              let j_is : (a, b) ≡ j = cc in ap (λ i. acc_key_eq i own) j_is ∙ same in
            let a_is : a ≡ entity_type = text_eq-eq a entity_type (ground (arith, owner)) in
            let b_is : b ≡ id = text_eq-eq b id (ground (arith, owner)) in
            let d_is : d ≡ direction is_sent =
              direction_is d is_sent (ground (arith, passes)) which in
            ap (λ l. codes "bw:" ++ l)
              (sym (join-split_on b':' r)
                ∙ ap (join b':') e
                ∙ ap (λ x. x ++ b':' ∷ (b ++ b':' ∷ d)) a_is
                ∙ ap (λ x. entity_type ++ b':' ∷ (x ++ b':' ∷ d)) b_is
                ∙ ap (λ x. entity_type ++ b':' ∷ (id ++ b':' ∷ x)) d_is)
      ]
  read_parts-own r [] n j is_sent v e h same = cc
  read_parts-own r (a ∷ []) n j is_sent v e h same = cc
  read_parts-own r (a ∷ b ∷ []) n j is_sent v e h same = cc
  read_parts-own r (a ∷ b ∷ d ∷ x ∷ ws) n j is_sent v e h same = cc

  read_counter-other :
      (x : Text) (n : ℕ) (j : AccKey) (is_sent : Bool) (v : ℤ)
      → IsBw x
      → read_counter x (some (print n)) ≡ some (j, is_sent, v)
      → acc_key_eq j own ≡ true
      → x ≡ key_of is_sent
  unfolding read_counter
  read_counter-other x n j is_sent v (r, x_is) h same =
      let h' : read_counter (codes "bw:" ++ r) (some (print n)) ≡ some (j, is_sent, v) =
        ap (λ k. read_counter k (some (print n))) (sym x_is) ∙ h in
      x_is ∙ read_parts-own r (split_on b':' r) n j is_sent v refl h' same

  keys_differ : text_eq (key_of true) (key_of false) ≡ false
  keys_differ = elim (Bool-cases (text_eq (key_of true) (key_of false))) [
    | inr apart ↦ apart
    | inl same ↦
        let one : Path (Option (AccKey × Bool × ℤ)) (some (own, true, pos 0))
            (some (own, false, pos 0)) =
          sym (read_counter-own true 0)
          ∙ ap (λ k. read_counter k (some (print 0))) (text_eq-eq (key_of true) (key_of false) same)
          ∙ read_counter-own false 0 in
        cc
  ]

  own_refl : acc_key_eq own own ≡ true
  own_refl = ground (arith, text_eq_refl entity_type, text_eq_refl id)

  abbrev pub bytes : ℕ → ℕ → Bytes
  bytes a b = record { sent = pos a; recv = pos b }

  -- What a counter adds to the entity.
  abbrev pub share : Bool → Text → ℕ → ℕ
  share is_sent x n = if text_eq x (key_of is_sent) then n else 0

  total-none :
      (x : Text) (v : Option Text) (st : Bytes) (rest : List (Text × Option Text))
      → read_counter x v ≡ none
      → total own ((x, v) ∷ rest) st ≡ total own rest st
  total-none x v st rest e = rw (e, total)

  total-some :
      (x : Text) (v : Option Text) (st : Bytes) (rest : List (Text × Option Text)) (j : AccKey)
      (d : Bool) (n : ℤ)
      → read_counter x v ≡ some (j, d, n)
      → total own ((x, v) ∷ rest) st
        ≡ total own rest (if acc_key_eq j own then add_bytes d n st else st)
  total-some x v st rest j d n e = rw (e, total)

  pub bytes_eq : (a a' b b' : ℕ) → a ≡ a' → b ≡ b' → bytes a b ≡ bytes a' b'
  bytes_eq a a' b b' e f = rw (e, f)

  add_bytes-pos :
      (d : Bool) (n a b : ℕ)
      → add_bytes d (pos n) (bytes a b)
        ≡ bytes (a + (if d then n else 0)) (b + (if d then 0 else n))
  add_bytes-pos true n a b =
      rw (pos_add a n) (bytes_eq (a + n) (a + n) b (b + 0) refl (omega arith))
  add_bytes-pos false n a b =
      rw (pos_add b n) (bytes_eq a (a + 0) (b + n) (b + n) (omega arith) refl)

  -- A key of the entity.
  total-own :
      (d : Bool) (x : Text) (v : Option Text) (n a b : ℕ) (rest : List (Text × Option Text))
      → x ≡ key_of d
      → v ≡ some (print n)
      → total own ((x, v) ∷ rest) (bytes a b)
        ≡ total own rest (bytes (a + (if d then n else 0)) (b + (if d then 0 else n)))
  total-own d x v n a b rest x_is v_is =
      let read : read_counter x v ≡ some (own, d, pos n) =
        ap (λ k. read_counter k v) x_is
        ∙ ap (read_counter (key_of d)) v_is
        ∙ read_counter-own d n in
      total-some x v (bytes a b) rest own d (pos n) read
      ∙ rw own_refl (ap (total own rest) (add_bytes-pos d n a b))

  -- Another key.
  total-other :
      (x : Text) (v : Option Text) (n : ℕ) (st : Bytes) (rest : List (Text × Option Text))
      → IsBw x
      → v ≡ some (print n)
      → text_eq x (key_of true) ≡ false
      → text_eq x (key_of false) ≡ false
      → total own ((x, v) ∷ rest) st ≡ total own rest st
  total-other x v n st rest bw v_is not_sent not_recv = elim (Option-cases (read_counter x v)) [
    | inl e ↦ total-none x v st rest e
    | inr ((j, d, w), e) ↦ elim (Bool-cases (acc_key_eq j own)) [
      | inr other ↦ total-some x v st rest j d w e ∙ rw other
      | inl same ↦
          let x_is : x ≡ key_of d =
            read_counter-other x n j d w bw (ap (read_counter x) (sym v_is) ∙ e) same in
          absurd (not_own d x_is)
    ]
  ]
    where
      not_own : (d : Bool) → x ≡ key_of d → ⊥
      not_own true x_is =
          let eq : text_eq x (key_of true) ≡ true =
            ap (λ y. text_eq y (key_of true)) x_is ∙ text_eq_refl (key_of true) in
          cc
      not_own false x_is =
          let eq : text_eq x (key_of false) ≡ true =
            ap (λ y. text_eq y (key_of false)) x_is ∙ text_eq_refl (key_of false) in
          cc

  pub total-step :
      (x : Text) (v : Option Text) (n a b : ℕ) (rest : List (Text × Option Text))
      → IsBw x
      → ((v ≡ none) × (n ≡ 0)) ⊎ (v ≡ some (print n))
      → total own ((x, v) ∷ rest) (bytes a b)
        ≡ total own rest (bytes (a + share true x n) (b + share false x n))
  unfolding read_counter
  total-step x v n a b rest bw (inl (nothing, zero)) =
      total-none x v (bytes a b) rest (ap (read_counter x) nothing)
      ∙ ap (total own rest)
          (bytes_eq a (a + share true x n) b (b + share false x n) (ground arith) (ground arith))
  total-step x v n a b rest bw (inr v_is) = elim (Bool-cases (text_eq x (key_of true))) [
    | inl is_sent ↦
        let x_is = text_eq-eq x (key_of true) is_sent in
        let no_recv : text_eq x (key_of false) ≡ false =
          ap (λ k. text_eq k (key_of false)) x_is ∙ keys_differ in
        rw (is_sent, no_recv) (total-own true x v n a b rest x_is v_is)
    | inr not_sent ↦ elim (Bool-cases (text_eq x (key_of false))) [
      | inl is_recv ↦
          rw (not_sent, is_recv)
            (total-own false x v n a b rest (text_eq-eq x (key_of false) is_recv) v_is)
      | inr not_recv ↦
          rw (not_sent, not_recv)
            (total-other x v n (bytes a b) rest bw v_is not_sent not_recv
              ∙ ap (total own rest) (bytes_eq a (a + 0) b (b + 0) (omega arith) (omega arith)))
    ]
  ]
