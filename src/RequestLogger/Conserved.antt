-- ===== src/RequestLogger/Conserved.antt =====
-- From the counters to the accumulator: `flush_bandwidth` (src/services/bandwidth.py) reads what
-- `_update_bandwidth_counters` (src/services/request_logger.py) has written.
use proxysm.Base.{
  ℕ, ◌+◌, ◌≡◌, ◌⊎◌, refl, ap, subst, ◌∙◌, Bool, true, false, ◌||◌, none, some, List, [], ◌∷◌, arith,
  if◌then◌else◌, All, Any, Bool-cases, inl, inr,
}
use proxysm.Base.Int.{pos}
use proxysm.Text.{Text, codes, text_eq, has}
use proxysm.Text.Laws.{text_eq-eq, text_eq_refl}
use proxysm.Text.Decimal.{print}
use proxysm.Bandwidth.{AccKey, Bytes, valid_entity_type, accumulate}
use proxysm.Bandwidth.Totals.{bytes_of, total, bytes_of-accumulate}
use proxysm.RequestLogger.{Counters, IsBw, RequestLog, bw_key, collect, read_counters}
use proxysm.RequestLogger.Flow.{Counts, adds_each, update_each, Counts-update_each}
use proxysm.RequestLogger.Scan

module _ (entity_type id : Text) (valid : valid_entity_type entity_type ≡ true)
    (type_free : has b':' entity_type ≡ false) (id_free : has b':' id ≡ false) where
  abbrev own : AccKey
  own = Scan.own entity_type id valid type_free id_free

  abbrev key_of : Bool → Text
  key_of = Scan.key_of entity_type id valid type_free id_free

  abbrev bytes : ℕ → ℕ → Bytes
  bytes = Scan.bytes entity_type id valid type_free id_free

  abbrev share : Bool → Text → ℕ → ℕ
  share = Scan.share entity_type id valid type_free id_free

  module _ (C : Counters) where
    open C use {Store, get, getdel, getdel_reply, get-getdel, scan, scan_matches, scan_complete}

    -- What the counters hold.
    abbrev AllCount : Store → (Text → ℕ) → Type 0
    AllCount s cnt = (k : Text) → Counts C s k (cnt k)

    abbrev without : Text → (Text → ℕ) → Text → ℕ
    without x cnt k = if text_eq x k then 0 else cnt k

    AllCount-getdel :
        (x : Text) (s : Store) (cnt : Text → ℕ)
        → AllCount s cnt
        → AllCount (getdel x s).1 (without x cnt)
    AllCount-getdel x s cnt h k = elim (Bool-cases (text_eq x k)) [
      | inl same ↦ rw same (inl (get-getdel x k s ∙ rw same, refl))
      | inr other ↦
          let kept : get (getdel x s).1 k ≡ get s k = get-getdel x k s ∙ rw other in
          rw other (elim (h k) [
            | inl (nothing, zero) ↦ inl (kept ∙ nothing, zero)
            | inr number ↦ inr (kept ∙ number)
          ])
    ]

    -- A key that is among those that were scanned.
    abbrev scanned : Text → List Text → Bool
    scanned k [] = false
    scanned k (x ∷ ks) = text_eq x k || scanned k ks

    abbrev taken : Bool → List Text → (Text → ℕ) → ℕ
    taken d ks cnt = if scanned (key_of d) ks then cnt (key_of d) else 0

    taken-cons :
        (d : Bool) (x : Text) (ks : List Text) (cnt : Text → ℕ)
        → share d x (cnt x) + taken d ks (without x cnt) ≡ taken d (x ∷ ks) cnt
    taken-cons d x ks cnt = elim (Bool-cases (text_eq x (key_of d))) [
      | inl same ↦
          let eq : cnt x ≡ cnt (key_of d) = ap cnt (text_eq-eq x (key_of d) same) in
          ground (arith, same, eq)
      | inr other ↦ ground (arith, other)
    ]

    total-collect :
        (ks : List Text) (s : Store) (cnt : Text → ℕ) (a b : ℕ)
        → All IsBw ks
        → AllCount s cnt
        → total own (collect C ks s).0 (bytes a b)
          ≡ bytes (a + taken true ks cnt) (b + taken false ks cnt)
    unfolding collect
    total-collect [] s cnt a b all h =
        Scan.bytes_eq entity_type id valid type_free id_free a (a + 0) b (b + 0) (omega arith)
          (omega arith)
    total-collect (x ∷ ks) s cnt a b (bw, all) h =
        let s' = (getdel x s).1 in
        let reply : (((getdel x s).0 ≡ none) × (cnt x ≡ 0))
            ⊎ ((getdel x s).0 ≡ some (print (cnt x))) =
          elim (h x) [
            | inl (nothing, zero) ↦ inl (getdel_reply x s ∙ nothing, zero)
            | inr number ↦ inr (getdel_reply x s ∙ number)
          ] in
        Scan.total-step entity_type id valid type_free id_free x (getdel x s).0 (cnt x) a b
          (collect C ks s').0 bw reply
        ∙ total-collect ks s' (without x cnt) (a + share true x (cnt x)) (b + share false x (cnt x))
            all (AllCount-getdel x s cnt h)
        ∙ Scan.bytes_eq entity_type id valid type_free id_free _ _ _ _
            (omega (arith, taken-cons true x ks cnt)) (omega (arith, taken-cons false x ks cnt))

    scanned_of : (k : Text) (ks : List Text) → Any (λ j. j ≡ k) ks → scanned k ks ≡ true
    scanned_of k [] h = absurd h
    scanned_of k (x ∷ ks) (inl same) =
        let eq : text_eq x k ≡ true = ap (λ j. text_eq j k) same ∙ text_eq_refl k in rw eq refl
    scanned_of k (x ∷ ks) (inr later) =
        let rest = scanned_of k ks later in
        elim (Bool-cases (text_eq x k)) [ inl e ↦ rw e refl | inr e ↦ rw e rest ]

    -- A key that was not scanned counts nothing.
    taken-scan :
        (d : Bool) (s : Store) (cnt : Text → ℕ)
        → AllCount s cnt
        → taken d (scan s) cnt ≡ cnt (key_of d)
    taken-scan d s cnt h = elim (h (key_of d)) [
      | inl (nothing, zero) ↦ ground (arith, zero)
      | inr number ↦
          rw
            (scanned_of (key_of d) (scan s)
              (scan_complete s (key_of d) (print (cnt (key_of d))) (_, refl) number))
            refl
    ]

    -- Whatever requests are logged, once none of the counters is there, and however SCAN orders and
    -- repeats the keys: the accumulator of the next flush has for the entity the bytes that the
    -- requests add to its two counters. The entity is of a type that the flush takes, and neither
    -- its type nor its id has a colon.
    pub flush_conserves :
        (rs : List RequestLog) (s : Store)
        → ((k : Text) → get s k ≡ none)
        → bytes_of (entity_type, id) (accumulate (read_counters C (update_each C rs s)).0 [])
          ≡ record {
            sent = pos (adds_each C rs (bw_key entity_type id (codes "sent")));
            recv = pos (adds_each C rs (bw_key entity_type id (codes "recv")));
          }
    unfolding read_counters
    flush_conserves rs s fresh =
        let s' = update_each C rs s in
        let cnt = adds_each C rs in
        let counts : AllCount s' cnt = λ k.
          subst (Counts C s' k) (omega arith)
            (Counts-update_each C rs k 0 s (inl (fresh k, refl))) in
        bytes_of-accumulate own (collect C (scan s') s').0
        ∙ total-collect (scan s') s' cnt 0 0 (scan_matches s') counts
        ∙ Scan.bytes_eq entity_type id valid type_free id_free (0 + taken true (scan s') cnt)
            (cnt (key_of true)) (0 + taken false (scan s') cnt) (cnt (key_of false))
            (omega (arith, taken-scan true s' cnt counts))
            (omega (arith, taken-scan false s' cnt counts))
