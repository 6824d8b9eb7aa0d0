-- ===== src/RequestLogger/Flow.antt =====
-- What a logged request adds to the counters (src/services/request_logger.py).
use proxysm.Base.{
  ℕ, ◌+◌, ◌≡◌, ◌⊎◌, ap, sym, subst, ◌∙◌, none, some, List, [], ◌∷◌, arith, if◌then◌else◌,
  Bool-cases, inl, inr,
}
use proxysm.Text.{Text, codes, text_eq}
use proxysm.Text.Laws.{text_eq-eq}
use proxysm.Text.Decimal.{print}
use proxysm.RequestLogger.{Counters, RequestLog, bw_key, update_bandwidth_counters}

module _ (C : Counters) where
  open C use {Store, get, incrby, get-incrby, get-incrby_new, get-incrby_other}

  -- The counter under a key is `n`; one that is not there is 0.
  abbrev pub Counts : Store → Text → ℕ → Type 0
  Counts s k n = ((get s k ≡ none) × (n ≡ 0)) ⊎ (get s k ≡ some (print n))

  Counts-incrby :
      (k j : Text) (m n : ℕ) (s : Store)
      → Counts s j n
      → Counts (incrby k m s) j (n + (if text_eq k j then m else 0))
  Counts-incrby k j m n s h = elim (Bool-cases (text_eq k j)) [
    | inr other ↦
        let same : get (incrby k m s) j ≡ get s j = get-incrby_other k j m s other in
        let sum : n ≡ n + 0 = omega arith in
        rw other (elim h [
          | inl (nothing, zero) ↦ inl (same ∙ nothing, omega arith)
          | inr some_number ↦ inr (same ∙ some_number ∙ ap (λ i. some (print i)) sum)
        ])
    | inl same ↦
        let k_is : k ≡ j = text_eq-eq k j same in
        rw same (elim h [
          | inl (nothing, zero) ↦
              let sum : m ≡ n + m = omega arith in
              inr (
                ap (get (incrby k m s)) (sym k_is)
                ∙ get-incrby_new k m s (ap (get s) k_is ∙ nothing)
                ∙ ap (λ i. some (print i)) sum)
          | inr some_number ↦ inr (
              ap (get (incrby k m s)) (sym k_is)
              ∙ get-incrby k m n s (ap (get s) k_is ∙ some_number))
        ])
  ]

  -- What a request adds to a counter.
  abbrev pub adds : RequestLog → Text → ℕ
  adds r k =
      (if text_eq (bw_key (codes "project") r.project_id (codes "sent")) k then r.bytes_sent else 0)
      + (if text_eq (bw_key (codes "project") r.project_id (codes "recv")) k
          then r.bytes_received
          else 0)
      + (if text_eq (bw_key (codes "proxy") r.proxy_id (codes "sent")) k then r.bytes_sent else 0)
      + (if text_eq (bw_key (codes "proxy") r.proxy_id (codes "recv")) k
          then r.bytes_received
          else 0)
      + (if text_eq (bw_key (codes "pool") r.pool_id (codes "sent")) k then r.bytes_sent else 0)
      + (if text_eq (bw_key (codes "pool") r.pool_id (codes "recv")) k then r.bytes_received else 0)

  Counts-update :
      (r : RequestLog) (k : Text) (n : ℕ) (s : Store)
      → Counts s k n
      → Counts (update_bandwidth_counters C r s) k (n + adds r k)
  unfolding update_bandwidth_counters
  Counts-update r k n s h =
      let key1 = bw_key (codes "project") r.project_id (codes "sent") in
      let key2 = bw_key (codes "project") r.project_id (codes "recv") in
      let key3 = bw_key (codes "proxy") r.proxy_id (codes "sent") in
      let key4 = bw_key (codes "proxy") r.proxy_id (codes "recv") in
      let key5 = bw_key (codes "pool") r.pool_id (codes "sent") in
      let key6 = bw_key (codes "pool") r.pool_id (codes "recv") in
      let s1 = incrby key1 r.bytes_sent s in
      let s2 = incrby key2 r.bytes_received s1 in
      let s3 = incrby key3 r.bytes_sent s2 in
      let s4 = incrby key4 r.bytes_received s3 in
      let s5 = incrby key5 r.bytes_sent s4 in
      let h1 = Counts-incrby key1 k r.bytes_sent _ s h in
      let h2 = Counts-incrby key2 k r.bytes_received _ s1 h1 in
      let h3 = Counts-incrby key3 k r.bytes_sent _ s2 h2 in
      let h4 = Counts-incrby key4 k r.bytes_received _ s3 h3 in
      let h5 = Counts-incrby key5 k r.bytes_sent _ s4 h4 in
      subst (Counts (update_bandwidth_counters C r s) k) (omega arith)
        (Counts-incrby key6 k r.bytes_received _ s5 h5)

  -- The requests, one after the other.
  abbrev pub update_each : List RequestLog → Store → Store
  update_each [] s = s
  update_each (r ∷ rs) s = update_each rs (update_bandwidth_counters C r s)

  abbrev pub adds_each : List RequestLog → Text → ℕ
  adds_each [] k = 0
  adds_each (r ∷ rs) k = adds r k + adds_each rs k

  pub Counts-update_each :
      (rs : List RequestLog) (k : Text) (n : ℕ) (s : Store)
      → Counts s k n
      → Counts (update_each rs s) k (n + adds_each rs k)
  Counts-update_each [] k n s h = subst (Counts s k) (omega arith) h
  Counts-update_each (r ∷ rs) k n s h = subst (Counts (update_each (r ∷ rs) s) k) (omega arith) (
      Counts-update_each rs k (n + adds r k) (update_bandwidth_counters C r s)
        (Counts-update r k n s h))
