-- ===== src/Metrics/Lookup.antt =====
-- What the table `metrics_rollup` holds behind a rollup (src/services/metrics.py).
use proxysm.Base.{
  ◌≡◌, refl, ap, sym, ◌∙◌, Bool, true, false, ◌||◌, Option, none, some, List, [], ◌∷◌, ◌++◌, arith,
  if◌then◌else◌, All, Bool-cases, inl, inr, ==_refl,
}
use proxysm.Text.Laws.{text_eq_refl}
use proxysm.Bandwidth.{AccKey, acc_key_eq}
use proxysm.Bandwidth.Totals.{acc_key_eq-eq}
use proxysm.Metrics.{
  Granularity, five_minutes, hour, day, granularity_eq, Slot, slot_eq, Figures, Table, has_key,
  distinct, upsert, upsert_each,
}

pub acc_key_eq_refl : (k : AccKey) → acc_key_eq k k ≡ true
acc_key_eq_refl (a, b) = ground (arith, text_eq_refl a, text_eq_refl b)

granularity_eq-eq : (g h : Granularity) → granularity_eq g h ≡ true → g ≡ h
granularity_eq-eq five_minutes five_minutes e = refl
granularity_eq-eq five_minutes hour e = cc
granularity_eq-eq five_minutes day e = cc
granularity_eq-eq hour five_minutes e = cc
granularity_eq-eq hour hour e = refl
granularity_eq-eq hour day e = cc
granularity_eq-eq day five_minutes e = cc
granularity_eq-eq day hour e = cc
granularity_eq-eq day day e = refl

granularity_eq_refl : (g : Granularity) → granularity_eq g g ≡ true
granularity_eq_refl five_minutes = refl
granularity_eq_refl hour = refl
granularity_eq_refl day = refl

pub slot_eq-eq : (a b : Slot) → slot_eq a b ≡ true → a ≡ b
unfolding slot_eq
slot_eq-eq a b h =
    ground (arith, acc_key_eq-eq a.key b.key, granularity_eq-eq a.granularity b.granularity)

pub slot_eq_refl : (a : Slot) → slot_eq a a ≡ true
unfolding slot_eq
slot_eq_refl a =
    ground (arith, acc_key_eq_refl a.key, ==_refl a.period, granularity_eq_refl a.granularity)

pub slot_eq_sym : (a b : Slot) → slot_eq a b ≡ slot_eq b a
slot_eq_sym a b = elim (Bool-cases (slot_eq a b)) [
  | inl e ↦ let same : a ≡ b = slot_eq-eq a b e in rw (same) refl
  | inr e ↦ elim (Bool-cases (slot_eq b a)) [
    | inl f ↦ let same : b ≡ a = slot_eq-eq b a f in rw (same) refl
    | inr f ↦ e ∙ sym f
  ]
]

not_both : (a b c : Slot) → slot_eq a b ≡ false → slot_eq a c ≡ true → slot_eq b c ≡ false
not_both a b c differs same = elim (Bool-cases (slot_eq b c)) [
  | inr e ↦ e
  | inl e ↦
      let flip : slot_eq c b ≡ true = slot_eq_sym c b ∙ e in
      let moved : slot_eq a b ≡ true = ap (λ x. slot_eq a x) (sym (slot_eq-eq c b flip)) ∙ same in
      cc
]

if_same {ℓ} :
    {A : Type ℓ} (b c : Bool) (x y z : A)
    → b ≡ c
    → (if b then x else z) ≡ (if c then x else if b then y else z)
if_same true true x y z h = refl
if_same true false x y z h = cc
if_same false true x y z h = cc
if_same false false x y z h = refl

if_swap {ℓ} :
    {A : Type ℓ} (b c : Bool) (x y z : A)
    → (b ≡ true → c ≡ false)
    → (if b then x else if c then y else z) ≡ (if c then y else if b then x else z)
if_swap true true x y z h = let no_way : true ≡ false = h refl in cc
if_swap true false x y z h = refl
if_swap false true x y z h = refl
if_swap false false x y z h = refl

if_or {ℓ} :
    {A : Type ℓ} (b c : Bool) (x y z : A)
    → (b ≡ true → x ≡ y)
    → (if c then y else if b then x else z) ≡ (if b || c then y else z)
if_or true true x y z h = refl
if_or true false x y z h = h refl
if_or false true x y z h = refl
if_or false false x y z h = refl

module _ {N : Type 0} where
  -- The row of a slot.
  abbrev pub find : Slot → Table N → Option (Figures N)
  find slot [] = none
  find slot ((old, f) ∷ table) =
      let rest = find slot table in if slot_eq old slot then some f else rest

  -- A row has this slot.
  abbrev pub hits : Slot → Table N → Bool
  hits slot [] = false
  hits slot ((old, f) ∷ rows) = slot_eq old slot || hits slot rows

  pub find-upsert :
      (slot new : Slot) (f : Figures N) (table : Table N)
      → find slot (upsert new f table) ≡ (if slot_eq new slot then some f else find slot table)
  unfolding upsert
  find-upsert slot new f [] = refl
  find-upsert slot new f ((old, g) ∷ table) = elim (Bool-cases (slot_eq old new)) [
    | inl same ↦ rw (same) (
        if_same (slot_eq old slot) (slot_eq new slot) (some f) (some g) (find slot table)
          (ap (λ x. slot_eq x slot) (slot_eq-eq old new same)))
    | inr differs ↦
        rw (differs, find-upsert slot new f table)
          (if_swap (slot_eq old slot) (slot_eq new slot) (some g) (some f) (find slot table)
            (λ at_old. not_both old new slot differs at_old))
  ]

  pub find-upsert_each :
      (F : Slot → Figures N) (slot : Slot) (rows table : Table N)
      → All (λ (s, f). f ≡ F s) rows
      → find slot (upsert_each rows table)
        ≡ (if hits slot rows then some (F slot) else find slot table)
  unfolding upsert_each
  find-upsert_each F slot [] table h = refl
  find-upsert_each F slot ((new, f) ∷ rows) table (e, h) =
      find-upsert_each F slot rows (upsert new f table) h
      ∙ ap (λ o. if hits slot rows then some (F slot) else o) (find-upsert slot new f table)
      ∙ if_or (slot_eq new slot) (hits slot rows) (some f) (some (F slot)) (find slot table)
          (λ same. ap some (e ∙ ap F (slot_eq-eq new slot same)))

  pub hits-append :
      (slot : Slot) (rows more : Table N)
      → hits slot (rows ++ more) ≡ (hits slot rows || hits slot more)
  hits-append slot [] more = refl
  hits-append slot ((s, f) ∷ rows) more = ground (arith, hits-append slot rows more)

  pub All-append :
      (F : Slot → Figures N) (rows more : Table N)
      → All (λ (s, f). f ≡ F s) rows
      → All (λ (s, f). f ≡ F s) more
      → All (λ (s, f). f ≡ F s) (rows ++ more)
  All-append F [] more h k = k
  All-append F ((s, f) ∷ rows) more (e, h) k = (e, All-append F rows more h k)

-- `distinct` keeps each key.
pub has_key-distinct : (k : AccKey) (l : List AccKey) → has_key k (distinct l) ≡ has_key k l
unfolding distinct
has_key-distinct k [] = refl
has_key-distinct k (j ∷ l) =
    ground (arith, has_key-distinct k l, has_key-distinct j l, acc_key_eq-eq j k)
