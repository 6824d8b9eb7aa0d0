-- ===== src/Redis/Memory.antt =====
-- A Redis that is a function from keys to data with an expiry.
use proxysm.Base.{
  ℕ, ◌+◌, ◌*◌, ◌≡◌, refl, Option, none, some, ◌++◌, arith, ltb, Bool-cases, inl, inr, if◌then◌else◌,
}
use proxysm.Redis.Defs.{
  Key, key_eq, Value, number, Datum, missing, str, list, weights, counts, hash, counter, list_of,
  weights_of, counts_of, hash_of, moved_datum, moved_one, add_weights, add_count, put_fields,
  touched, expires_at, InPlace, Redis,
}

abbrev pub Cells : Type 0
Cells = Key → Datum × Option ℕ

unfoldable pub read_cell : Cells → ℕ → Key → Datum
read_cell s u k = expires_at (s k).1 u (s k).0

abbrev write : Key → Datum × Option ℕ → Cells → Cells
write k c s j = if key_eq k j then c else s j

-- A write in place keeps the expiry of a key that is there.
abbrev expiry_of : Datum → Option ℕ → Option ℕ
expiry_of missing e = none
expiry_of _ e = e

unfoldable pub alter : (Datum → Datum) → Key → ℕ → Cells → Cells
unfolding read_cell
alter f k t s = let old = read_cell s t k in write k (f old, expiry_of old (s k).1) s

pub deadline : ℕ → Option ℕ → Option ℕ
deadline t none = none
deadline t (some e) = some (t + e * 1000)

touched-expires :
    (e : Option ℕ) (t u : ℕ) (d new : Datum)
    → expires_at (expiry_of (expires_at e t d) e) u new
      ≡ touched (expires_at e t d) (expires_at e u d) new
touched-expires e t u missing new = ground arith
touched-expires e t u d new = ground arith

pub read-alter :
    (f : Datum → Datum) (k : Key) (t : ℕ) (s : Cells)
    → InPlace read_cell s (alter f k t s) t k (f (read_cell s t k))
unfolding alter read_cell
read-alter f k t s u j = elim (Bool-cases (key_eq k j)) [
  | inl same ↦ rw same (touched-expires (s k).1 t u (s k).0 (f (read_cell s t k)))
  | inr differs ↦ rw differs
]

pub read-write :
    (k : Key) (v : Value) (ex : Option ℕ) (t : ℕ) (s : Cells) (u : ℕ) (j : Key)
    → read_cell (write k (str v, deadline t ex) s) u j ≡ (
        if key_eq k j
        then (elim ex [ none ↦ str v | some e ↦ if ltb u (t + e * 1000) then str v else missing ])
        else read_cell s u j)
unfolding read_cell deadline
read-write k v ex t s u j = ground arith

pub read-remove :
    (k : Key) (s : Cells) (u : ℕ) (j : Key)
    → read_cell (write k (missing, none) s) u j ≡ (if key_eq k j then missing else read_cell s u j)
unfolding read_cell
read-remove k s u j = ground arith

pub read-write_until :
    (k : Key) (e t : ℕ) (s : Cells) (u : ℕ) (j : Key)
    → read_cell (write k (read_cell s t k, some (t + e * 1000)) s) u j ≡ (
        if key_eq k j
        then (if ltb u (t + e * 1000) then read_cell s t k else missing)
        else read_cell s u j)
unfolding read_cell
read-write_until k e t s u j = elim (Bool-cases (key_eq k j)) [
  | inl same ↦ rw same
  | inr differs ↦ rw differs
]

abbrev pub incremented : Datum → Datum
incremented d = str (number (counter d + 1))

abbrev pub memory : Redis
memory = record {
  Store = Cells;
  read = read_cell;
  set = λ k v ex t s. write k (str v, deadline t ex) s;
  del = λ k s. write k (missing, none) s;
  incr = λ k t s. (counter (read_cell s t k) + 1, alter incremented k t s);
  expire = λ k e t s. write k (read_cell s t k, some (t + e * 1000)) s;
  lmove = λ k t s. (moved_one (list_of (read_cell s t k)), alter moved_datum k t s);
  rpush = λ k l t s. alter (λ d. list (list_of d ++ l)) k t s;
  zadd = λ k l t s. alter (λ d. weights (add_weights l (weights_of d))) k t s;
  zincrby = λ k delta m t s. alter (λ d. counts (add_count delta m (counts_of d))) k t s;
  hset = λ k m t s. alter (λ d. hash (put_fields m (hash_of d))) k t s;
  read-set = read-write;
  read-del = read-remove;
  incr_reply = λ k t s. refl;
  read-incr = λ k t s. read-alter incremented k t s;
  read-expire = read-write_until;
  lmove_reply = λ k t s. refl;
  read-lmove = λ k t s. read-alter moved_datum k t s;
  read-rpush = λ k l t s. read-alter (λ d. list (list_of d ++ l)) k t s;
  read-zadd = λ k l t s. read-alter (λ d. weights (add_weights l (weights_of d))) k t s;
  read-zincrby = λ k delta m t s. read-alter (λ d. counts (add_count delta m (counts_of d))) k t s;
  read-hset = λ k m t s. read-alter (λ d. hash (put_fields m (hash_of d))) k t s;
}

-- The store with nothing in it.
abbrev pub no_keys : Cells
no_keys k = (missing, none)

pub read-no_keys : (u : ℕ) (k : Key) → read_cell no_keys u k ≡ missing
unfolding read_cell
read-no_keys u k = refl
