-- ===== src/Groups.antt =====
-- GROUP BY, as the queries of src/services/metrics.py and src/api/stats.py use it.
use proxysm.Base.{
  ℕ, suc, ◌+◌, ◌≡◌, refl, ap, sym, ◌∙◌, Bool, true, false, ◌||◌, List, [], ◌∷◌, map, arith,
  if◌then◌else◌, length, Bool-cases, inl, inr,
}

module _ {K : Type 0} (eq : K → K → Bool) where
  abbrev pub has_by : K → List K → Bool
  has_by k [] = false
  has_by k (j ∷ l) = eq j k || has_by k l

  -- Each key once.
  unfoldable pub distinct_by : List K → List K
  distinct_by [] = []
  distinct_by (k ∷ l) = let rest = distinct_by l in if has_by k rest then rest else k ∷ rest

  module _ {A : Type 0} (key : A → K) where
    -- The rows of a group.
    unfoldable pub rows_with : K → List A → List A
    rows_with k [] = []
    rows_with k (x ∷ l) = let rest = rows_with k l in if eq (key x) k then x ∷ rest else rest

    -- The groups, each with its rows.
    unfoldable pub groups_for : List K → List A → List (K × List A)
    unfolding rows_with
    groups_for [] rows = []
    groups_for (k ∷ keys) rows = (k, rows_with k rows) ∷ groups_for keys rows

    unfoldable pub group_rows : List A → List (K × List A)
    unfolding groups_for distinct_by
    group_rows rows = groups_for (distinct_by (map key rows)) rows

module _ {K A : Type 0} where
  -- The rows of all groups together.
  abbrev pub grouped : List (K × List A) → ℕ
  grouped [] = 0
  grouped ((k, rows) ∷ groups) = length rows + grouped groups

module _ {K : Type 0} (eq : K → K → Bool) (eq-eq : (j k : K) → eq j k ≡ true → j ≡ k)
    (eq_refl : (k : K) → eq k k ≡ true) where
  eq_sym : (j k : K) → eq j k ≡ eq k j
  eq_sym j k = elim (Bool-cases (eq j k)) [
    | inl e ↦ let same : j ≡ k = eq-eq j k e in rw same refl
    | inr e ↦ elim (Bool-cases (eq k j)) [
      | inl f ↦ let same : k ≡ j = eq-eq k j f in rw same refl
      | inr f ↦ e ∙ sym f
    ]
  ]

  abbrev IsNodup : List K → Type 0
  IsNodup [] = Unit
  IsNodup (k ∷ l) = (has_by eq k l ≡ false) × IsNodup l

  distinct_by-IsNodup : (l : List K) → IsNodup (distinct_by eq l)
  unfolding distinct_by
  distinct_by-IsNodup [] = tt
  distinct_by-IsNodup (k ∷ l) = elim (Bool-cases (has_by eq k (distinct_by eq l))) [
    | inl e ↦ rw e (distinct_by-IsNodup l)
    | inr e ↦ rw e (e, distinct_by-IsNodup l)
  ]

  pub has_by-distinct_by : (k : K) (l : List K) → has_by eq k (distinct_by eq l) ≡ has_by eq k l
  unfolding distinct_by
  has_by-distinct_by k [] = refl
  has_by-distinct_by k (j ∷ l) =
      ground (arith, has_by-distinct_by k l, has_by-distinct_by j l, eq-eq j k)

  -- How often a key is among those.
  abbrev matches : K → List K → ℕ
  matches k [] = 0
  matches k (j ∷ l) = let rest = matches k l in if eq k j then suc rest else rest

  matches-none : (k : K) (l : List K) → has_by eq k l ≡ false → matches k l ≡ 0
  matches-none k [] h = refl
  matches-none k (j ∷ l) h = ground (arith, matches-none k l, eq_sym k j)

  matches-one : (k : K) (l : List K) → IsNodup l → has_by eq k l ≡ true → matches k l ≡ 1
  matches-one k [] u h = cc
  matches-one k (j ∷ l) (free, u) h = elim (Bool-cases (eq k j)) [
    | inl e ↦
        let gone : has_by eq k l ≡ false = ap (λ x. has_by eq x l) (eq-eq k j e) ∙ free in
        rw (e, matches-none k l gone) refl
    | inr e ↦
        let off : eq j k ≡ false = eq_sym j k ∙ e in
        let rest : has_by eq k l ≡ true = rw off at h in rw e (matches-one k l u rest)
  ]

  module _ {A : Type 0} (key : A → K) where
    has_by-map : (x : A) (l : List A) → has_by eq (key x) (map key (x ∷ l)) ≡ true
    has_by-map x l = rw (eq_refl (key x)) refl

    grouped_cons :
        (keys : List K) (x : A) (l : List A)
        → grouped (groups_for eq key keys (x ∷ l))
          ≡ matches (key x) keys + grouped (groups_for eq key keys l)
    unfolding groups_for rows_with
    grouped_cons [] x l = refl
    grouped_cons (k ∷ keys) x l =
        let rest = grouped_cons keys x l in
        elim (Bool-cases (eq (key x) k)) [
          | inl e ↦ rw (e) (omega (arith, rest))
          | inr e ↦ rw (e) (omega (arith, rest))
        ]

    -- Each row has its key among those.
    abbrev Covers : List K → List A → Type 0
    Covers keys [] = Unit
    Covers keys (x ∷ l) = (has_by eq (key x) keys ≡ true) × Covers keys l

    grouped_nil : (keys : List K) → grouped (groups_for eq key keys []) ≡ 0
    unfolding groups_for rows_with
    grouped_nil [] = refl
    grouped_nil (k ∷ keys) = omega (arith, grouped_nil keys)

    Covers-cons : (k : K) (keys : List K) (l : List A) → Covers keys l → Covers (k ∷ keys) l
    Covers-cons k keys [] c = tt
    Covers-cons k keys (x ∷ l) (here, c) =
        (ap (λ b. eq k (key x) || b) here ∙ or_true (eq k (key x)), Covers-cons k keys l c)
      where
        or_true : (b : Bool) → (b || true) ≡ true
        or_true b = ground arith

    Covers-map : (l : List A) → Covers (map key l) l
    Covers-map [] = tt
    Covers-map (x ∷ l) = (has_by-map x l, Covers-cons (key x) (map key l) l (Covers-map l))

    Covers-distinct_by :
        (keys : List K) (l : List A) → Covers keys l → Covers (distinct_by eq keys) l
    Covers-distinct_by keys [] c = tt
    Covers-distinct_by keys (x ∷ l) (here, c) =
        (has_by-distinct_by (key x) keys ∙ here, Covers-distinct_by keys l c)

    grouped_all :
        (keys : List K) (l : List A)
        → IsNodup keys
        → Covers keys l
        → grouped (groups_for eq key keys l) ≡ length l
    grouped_all keys [] u c = grouped_nil keys
    grouped_all keys (x ∷ l) u (here, c) =
        grouped_cons keys x l
        ∙ rw (matches-one (key x) keys u here, grouped_all keys l u c) (omega arith)

    -- Each row is in exactly one group.
    pub grouped-group_rows : (rows : List A) → grouped (group_rows eq key rows) ≡ length rows
    unfolding group_rows
    grouped-group_rows rows =
        grouped_all (distinct_by eq (map key rows)) rows (distinct_by-IsNodup (map key rows))
          (Covers-distinct_by (map key rows) rows (Covers-map rows))
