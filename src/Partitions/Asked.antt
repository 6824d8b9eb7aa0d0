-- ===== src/Partitions/Asked.antt =====
-- The partitions that `ensure_partitions` asks for (src/services/partitions.py), and their names.
use proxysm.Base.{
  ℕ, zero, suc, ◌+◌, ◌≤◌, ◌<◌, ◌≡◌, refl, ap, sym, subst, ◌∙◌, Bool, true, false, not, ◌&&◌, ◌||◌,
  Option, none, some, List, [], ◌∷◌, ◌++◌, arith, if◌then◌else◌, All, Any, Bool-cases, inl, inr,
}
use proxysm.Text.{Text, codes, text_eq, behind_prefix}
use proxysm.Text.Laws.{text_eq-eq}
use proxysm.Partitions.{
  Date, tomorrow, plus_days, date_text, partition_name, parse_date, Partition, partition_of, wanted,
  lookahead_days, partitioned_tables, wanted_each, is_named,
}
use proxysm.Partitions.Dates.{Fits, tomorrow-Fits}
use proxysm.Partitions.Names.{parse_date-date_text}
use proxysm.Partitions.Days.{plus_days-Fits, behind_prefix-partition_name}

-- A date with a year of at most four digits.
abbrev pub IsShort : Date → Type 0
IsShort d = Fits d × (1 ≤ d.year) × (d.year ≤ 9999)

-- A partition that the job asks for.
pub record IsWanted (p : Partition) : Type 0 where
  pub parent : Text
  pub day : Date
  pub known : Any (λ table. table ≡ parent) partitioned_tables
  pub short : IsShort day
  pub row : p ≡ partition_of parent day

pub year-tomorrow : (d : Date) → (d.year ≤ (tomorrow d).year) × ((tomorrow d).year ≤ d.year + 1)
unfolding tomorrow
year-tomorrow d = ground arith

pub year-plus_days :
    (n : ℕ) (d : Date) → (d.year ≤ (plus_days n d).year) × ((plus_days n d).year ≤ d.year + n)
unfolding plus_days
year-plus_days zero d = (omega arith, omega arith)
year-plus_days (suc n) d =
    let step = year-tomorrow d in
    let rest = year-plus_days n (tomorrow d) in (omega arith, omega arith)

pub plus_days-IsShort :
    (n : ℕ) (d : Date) → Fits d → 1 ≤ d.year → d.year + n ≤ 9999 → IsShort (plus_days n d)
plus_days-IsShort n d h low high =
    let years = year-plus_days n d in (plus_days-Fits n d h, omega arith, omega arith)

pub wanted-IsWanted :
    (parent : Text) (n : ℕ) (d : Date)
    → Any (λ table. table ≡ parent) partitioned_tables
    → Fits d
    → 1 ≤ d.year
    → d.year + n ≤ 9999
    → All IsWanted (wanted n parent d)
unfolding wanted
wanted-IsWanted parent zero d known h low high = tt
wanted-IsWanted parent (suc n) d known h low high =
    let step = year-tomorrow d in
    (
      record { parent = parent; day = d; known = known; short = (h, low, omega arith); row = refl },
      wanted-IsWanted parent n (tomorrow d) known (tomorrow-Fits d h) (omega arith) (omega arith),
    )

pub All-append :
    (P : Partition → Type 0) (l m : List Partition) → All P l → All P m → All P (l ++ m)
All-append P [] m h k = k
All-append P (x ∷ l) m h k = (h.0, All-append P l m h.1 k)

pub wanted_each-IsWanted :
    (d : Date)
    → Fits d
    → 1 ≤ d.year
    → d.year + 7 ≤ 9999
    → All IsWanted (wanted_each partitioned_tables d)
unfolding wanted_each
wanted_each-IsWanted d h low high =
    All-append IsWanted (wanted 7 (codes "request_log") d)
      (wanted 7 (codes "health_check_log") d ++ [])
      (wanted-IsWanted (codes "request_log") 7 d (inl refl) h low high)
      (All-append IsWanted (wanted 7 (codes "health_check_log") d) []
        (wanted-IsWanted (codes "health_check_log") 7 d (inr (inl refl)) h low high) tt)

abbrev pub initial : Text → ℕ
initial [] = 0
initial (x ∷ s) = x

pub letters_differ : (n : ℕ) → n ≡ 114 → n ≡ 104 → ⊥
letters_differ n h k = omega arith

-- The two tables have no partition name in common.
pub other_table :
    (d e : Date)
    → ¬ (partition_name (codes "request_log") d ≡ partition_name (codes "health_check_log") e)
unfolding partition_name
other_table d e h = letters_differ (initial (codes "request_log")) refl (ap initial h)

pub same_table :
    (parent : Text) (d e : Date)
    → IsShort d
    → IsShort e
    → partition_name parent d ≡ partition_name parent e
    → d ≡ e
same_table parent d e h k same =
    let texts : some (date_text d) ≡ some (date_text e) =
      sym (behind_prefix-partition_name parent d)
      ∙ ap (behind_prefix (parent ++ b'_' ∷ [])) same
      ∙ behind_prefix-partition_name parent e in
    let text : date_text d ≡ date_text e = cc in
    let read : some d ≡ some e =
      sym (parse_date-date_text d h.0 h.1 h.2)
      ∙ ap parse_date text
      ∙ parse_date-date_text e k.0 k.1 k.2 in
    cc

-- A partition of the name is there.
abbrev pub Named : Text → List Partition → Type 0
Named name l = is_named name l ≡ true

pub is_named-append :
    (name : Text) (l m : List Partition)
    → is_named name (l ++ m) ≡ (is_named name l || is_named name m)
is_named-append name [] m = refl
is_named-append name (p ∷ l) m = ground (arith, is_named-append name l m)

pub goes_on {ℓ} : {A : Type ℓ} (b : Bool) (o : Option A) → (if not b && false then none else o) ≡ o
goes_on true o = refl
goes_on false o = refl

pub wanted-days :
    (P : Partition → Type 0) (parent : Text) (n : ℕ) (d : Date)
    → All P (wanted n parent d)
    → (i : ℕ) → i < n
    → P (partition_of parent (plus_days i d))
unfolding wanted plus_days
wanted-days P parent zero d h i lt = absurd (omega arith)
wanted-days P parent (suc n) d (here, h) zero lt = here
wanted-days P parent (suc n) d (here, h) (suc i) lt =
    wanted-days P parent n (tomorrow d) h i (omega arith)

pub All-left {ℓ} : {A : Type ℓ} (P : A → Type 0) (l m : List A) → All P (l ++ m) → All P l
All-left P [] m h = tt
All-left P (x ∷ l) m h = (h.0, All-left P l m h.1)

pub All-right {ℓ} : {A : Type ℓ} (P : A → Type 0) (l m : List A) → All P (l ++ m) → All P m
All-right P [] m h = h
All-right P (x ∷ l) m h = All-right P l m h.1

pub wanted_each-days :
    (P : Partition → Type 0) (parent : Text) (parents : List Text) (today : Date)
    → Any (λ p. p ≡ parent) parents
    → All P (wanted_each parents today)
    → All P (wanted lookahead_days parent today)
unfolding wanted_each
wanted_each-days P parent [] today none_there h = absurd none_there
wanted_each-days P parent (p ∷ parents) today (inl same) h =
    subst (λ q. All P (wanted lookahead_days q today)) same
      (All-left P (wanted lookahead_days p today) (wanted_each parents today) h)
wanted_each-days P parent (p ∷ parents) today (inr there) h =
    wanted_each-days P parent parents today there
      (All-right P (wanted lookahead_days p today) (wanted_each parents today) h)

-- The name of a partition that is asked for determines it.
pub named_row :
    (table parent : Text) (d e : Date)
    → Any (λ q. q ≡ table) partitioned_tables
    → Any (λ q. q ≡ parent) partitioned_tables
    → IsShort d
    → IsShort e
    → partition_name table d ≡ partition_name parent e
    → partition_of table d ≡ partition_of parent e
named_row table parent d e known known' h k same = rows known known'
  where
    one_table : table ≡ parent → partition_of table d ≡ partition_of parent e
    one_table q =
        ap (λ t. partition_of t d) q
        ∙ ap (partition_of parent)
            (same_table parent d e h k (ap (λ t. partition_name t d) (sym q) ∙ same))

    rows :
        Any (λ q. q ≡ table) partitioned_tables
        → Any (λ q. q ≡ parent) partitioned_tables
        → partition_of table d ≡ partition_of parent e
    rows (inl a) (inl b) = one_table (sym a ∙ b)
    rows (inr (inl a)) (inr (inl b)) = one_table (sym a ∙ b)
    rows (inl a) (inr (inl b)) = absurd (
        other_table d e
          (ap (λ t. partition_name t d) a ∙ same ∙ ap (λ t. partition_name t e) (sym b)))
    rows (inr (inl a)) (inl b) = absurd (
        other_table e d
          (ap (λ t. partition_name t e) b ∙ sym same ∙ ap (λ t. partition_name t d) (sym a)))
    rows (inr (inr x)) b = absurd x
    rows a (inr (inr x)) = absurd x

-- A partition that is asked for and has this name is there, with its row.
pub row_of_name :
    (parent : Text) (d : Date) (l : List Partition)
    → Any (λ q. q ≡ parent) partitioned_tables
    → IsShort d
    → All IsWanted l
    → Named (partition_name parent d) l
    → Any (λ p. p ≡ partition_of parent d) l
unfolding partition_of
row_of_name parent d [] known h all named = cc
row_of_name parent d (p ∷ l) known h (w, all) named =
    elim (Bool-cases (text_eq p.name (partition_name parent d))) [
      | inr e ↦ inr (row_of_name parent d l known h all (rw e at named))
      | inl e ↦ inl (
          w.row
          ∙ named_row w.parent parent w.day d w.known known w.short h (
              sym (ap (λ (q : Partition). q.name) w.row)
              ∙ text_eq-eq p.name (partition_name parent d) e))
    ]
