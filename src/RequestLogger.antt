-- ===== src/RequestLogger.antt =====
-- `RequestLogger` of src/services/request_logger.py, and the part of `flush_bandwidth` of
-- src/services/bandwidth.py that reads its counters. The counters are strings of Redis, whose
-- commands are the record `Counters`; the two writes of `log_request` run on their own, and each may
-- fail without the other.
pub mod Flow
pub mod Conserved
pub mod Scan
mod Tests
use proxysm.Base.{
  ℕ, ◌+◌, ◌≡◌, Bool, false, Option, none, some, List, [], ◌∷◌, ◌++◌, Any, All, if◌then◌else◌,
}
use proxysm.Text.{Text, codes, text_eq}
use proxysm.Text.Decimal.{print}

-- A key that `scan_iter(match="bw:*")` may give.
abbrev pub IsBw : Text → Type 0
IsBw k = (r : Text) × (k ≡ codes "bw:" ++ r)

-- The commands of Redis on the counters, with their documented effect: INCRBY takes a key that is
-- not there for 0, and keeps a number in decimal; SCAN gives each matching key that is there, and
-- may give one twice.
pub record Counters : Type 1 where
  pub Store : Type 0
  pub get : Store → Text → Option Text
  pub incrby : Text → ℕ → Store → Store
  pub getdel : Text → Store → Option Text × Store
  pub scan : Store → List Text
  pub get-incrby_new :
      (k : Text) (n : ℕ) (s : Store) → get s k ≡ none → get (incrby k n s) k ≡ some (print n)
  pub get-incrby :
      (k : Text) (n m : ℕ) (s : Store)
      → get s k ≡ some (print m)
      → get (incrby k n s) k ≡ some (print (m + n))
  pub get-incrby_other :
      (k j : Text) (n : ℕ) (s : Store) → text_eq k j ≡ false → get (incrby k n s) j ≡ get s j
  pub getdel_reply : (k : Text) (s : Store) → (getdel k s).0 ≡ get s k
  pub get-getdel :
      (k j : Text) (s : Store) → get (getdel k s).1 j ≡ (if text_eq k j then none else get s j)
  pub scan_matches : (s : Store) → All IsBw (scan s)
  pub scan_complete :
      (s : Store) (k v : Text) → IsBw k → get s k ≡ some v → Any (λ j. j ≡ k) (scan s)

-- A row of `request_log`.
pub record RequestLog : Type 0 where
  pub project_id : Text
  pub pool_id : Text
  pub proxy_id : Text
  pub status_code : ℕ
  pub response_time_ms : ℕ
  pub bytes_sent : ℕ
  pub bytes_received : ℕ
  pub target_domain : Text
  pub error_type : Option Text
  pub created_at : ℕ

-- f"bw:{entity_type}:{entity_id}:{direction}"
abbrev pub bw_key : Text → Text → Text → Text
bw_key entity_type entity_id direction =
    codes "bw:" ++ (entity_type ++ b':' ∷ (entity_id ++ b':' ∷ direction))

module _ (C : Counters) where
  open C use {Store, incrby, getdel, scan}

  -- `_update_bandwidth_counters`, a pipeline
  unfoldable pub update_bandwidth_counters : RequestLog → Store → Store
  update_bandwidth_counters r s =
      let s1 = incrby (bw_key (codes "project") r.project_id (codes "sent")) r.bytes_sent s in
      let s2 = incrby (bw_key (codes "project") r.project_id (codes "recv")) r.bytes_received s1 in
      let s3 = incrby (bw_key (codes "proxy") r.proxy_id (codes "sent")) r.bytes_sent s2 in
      let s4 = incrby (bw_key (codes "proxy") r.proxy_id (codes "recv")) r.bytes_received s3 in
      let s5 = incrby (bw_key (codes "pool") r.pool_id (codes "sent")) r.bytes_sent s4 in
      incrby (bw_key (codes "pool") r.pool_id (codes "recv")) r.bytes_received s5

  -- `_insert_db_record`; an exception is logged, and no row is there.
  abbrev pub insert_db_record : Bool → RequestLog → List RequestLog → List RequestLog
  insert_db_record works r rows = if works then rows ++ r ∷ [] else rows

  -- `log_request`, once both tasks are done; `inserts` and `counts` say whether each works.
  unfoldable pub log_request :
      Bool → Bool → RequestLog → List RequestLog × Store → List RequestLog × Store
  unfolding update_bandwidth_counters
  log_request inserts counts r (rows, s) =
      (insert_db_record inserts r rows, if counts then update_bandwidth_counters r s else s)

  -- The pipeline of GETDEL over the keys that were scanned.
  unfoldable pub collect : List Text → Store → List (Text × Option Text) × Store
  collect [] s = ([], s)
  collect (k ∷ ks) s =
      let (v, s') = getdel k s in let (rest, s'') = collect ks s' in ((k, v) ∷ rest, s'')

  unfoldable pub read_counters : Store → List (Text × Option Text) × Store
  unfolding collect
  read_counters s = collect (scan s) s
