-- ===== src/Redis/Defs.antt =====
-- The keys, the values and the commands of Redis that the program uses.
use proxysm.Base.{
  ℕ, ◌+◌, ◌*◌, ◌≡◌, String, Bool, true, false, ◌&&◌, ◌||◌, Option, none, some, List, [], ◌∷◌, ◌++◌,
  ltb, ◌==◌, str_eq, if◌then◌else◌,
}
use proxysm.Base.Int.{ℤ, pos, ◌+ℤ◌, leb_ℤ}
use proxysm.Text.{Text}
use proxysm.Models.{Status, dead}

-- One constructor for each key format: `health p` is "proxy:{p}:health".
pub data Key : Type 0 where
  failures successes health external_ip info dead_backoff next_check : ℕ → Key
  pool_proxies pool_weighted pool_connections : ℕ → Key
  sticky : ℕ → String → Key
  ratelimit : ℕ → ℕ → Key

abbrev pub key_eq : Key → Key → Bool
key_eq (failures p) (failures q) = p == q
key_eq (successes p) (successes q) = p == q
key_eq (health p) (health q) = p == q
key_eq (external_ip p) (external_ip q) = p == q
key_eq (info p) (info q) = p == q
key_eq (dead_backoff p) (dead_backoff q) = p == q
key_eq (next_check p) (next_check q) = p == q
key_eq (pool_proxies p) (pool_proxies q) = p == q
key_eq (pool_weighted p) (pool_weighted q) = p == q
key_eq (pool_connections p) (pool_connections q) = p == q
key_eq (sticky p k) (sticky q l) = p == q && str_eq k l
key_eq (ratelimit p w) (ratelimit q v) = p == q && w == v
key_eq _ _ = false

-- What the program writes under a key, before it is printed.
pub data Value : Type 0 where
  status : Status → Value
  number : ℕ → Value
  integer : ℤ → Value
  word : Text → Value

-- The fields of a hash, as HGETALL returns them.
abbrev pub Fields : Type 0
Fields = List (String × Value)

-- What stands under a key: nothing, a string, a list of proxies, a sorted set or a hash.
pub data Datum : Type 0 where
  missing : Datum
  str : Value → Datum
  list : List ℕ → Datum
  weights : List (ℕ × ℕ) → Datum
  counts : List (ℕ × ℤ) → Datum
  hash : Fields → Datum

-- A counter that is not there counts from 0.
abbrev pub counter : Datum → ℕ
counter (str (number n)) = n
counter _ = 0

abbrev pub list_of : Datum → List ℕ
list_of (list l) = l
list_of _ = []

abbrev pub weights_of : Datum → List (ℕ × ℕ)
weights_of (weights l) = l
weights_of _ = []

abbrev pub counts_of : Datum → List (ℕ × ℤ)
counts_of (counts l) = l
counts_of _ = []

abbrev pub hash_of : Datum → Fields
hash_of (hash m) = m
hash_of _ = []

abbrev pub is_dead : Datum → Bool
is_dead (str (status dead)) = true
is_dead _ = false

-- `d.get(f)` of a hash.
unfoldable pub lookup : String → Fields → Option Value
lookup f [] = none
lookup f ((g, v) ∷ m) = if str_eq g f then some v else lookup f m

-- LMOVE key key RIGHT LEFT on the list.
abbrev pub move_last : List ℕ → Option (ℕ × List ℕ)
move_last [] = none
move_last (x ∷ xs) = elim (move_last xs) [ none ↦ some (x, []) | some (y, r) ↦ some (y, x ∷ r) ]

abbrev pub moved : List ℕ → List ℕ
moved l = elim (move_last l) [ none ↦ [] | some (y, r) ↦ y ∷ r ]

abbrev pub moved_datum : Datum → Datum
moved_datum (list l) = list (moved l)
moved_datum d = d

abbrev pub moved_one : List ℕ → Option ℕ
moved_one l = elim (move_last l) [ none ↦ none | some (y, r) ↦ some y ]

-- A sorted set is listed by score, and by member where scores agree.
abbrev pub precedes : ℕ × ℤ → ℕ × ℤ → Bool
precedes (m, c) (n, d) = if leb_ℤ c d then (if leb_ℤ d c then ltb m n else true) else false

unfoldable pub insert_count : ℕ × ℤ → List (ℕ × ℤ) → List (ℕ × ℤ)
insert_count e [] = e ∷ []
insert_count e (x ∷ xs) = if precedes e x then e ∷ x ∷ xs else x ∷ insert_count e xs

abbrev pub score : ℕ → List (ℕ × ℤ) → ℤ
score m [] = pos 0
score m ((n, c) ∷ l) = if m == n then c else score m l

abbrev pub without : ℕ → List (ℕ × ℤ) → List (ℕ × ℤ)
without m [] = []
without m ((n, c) ∷ l) = if m == n then without m l else (n, c) ∷ without m l

-- ZADD gives every member of the mapping its score.
abbrev pub weight_precedes : ℕ × ℕ → ℕ × ℕ → Bool
weight_precedes (m, w) (n, v) = ltb w v || w == v && ltb m n

unfoldable pub insert_weight : ℕ × ℕ → List (ℕ × ℕ) → List (ℕ × ℕ)
insert_weight e [] = e ∷ []
insert_weight e (x ∷ xs) = if weight_precedes e x then e ∷ x ∷ xs else x ∷ insert_weight e xs

unfoldable pub drop_weight : ℕ → List (ℕ × ℕ) → List (ℕ × ℕ)
drop_weight m [] = []
drop_weight m ((n, w) ∷ l) = let rest = drop_weight m l in if m == n then rest else (n, w) ∷ rest

unfoldable pub add_weights : List (ℕ × ℕ) → List (ℕ × ℕ) → List (ℕ × ℕ)
unfolding insert_weight drop_weight
add_weights [] l = l
add_weights ((m, w) ∷ new) l = add_weights new (insert_weight (m, w) (drop_weight m l))

unfoldable pub add_count : ℤ → ℕ → List (ℕ × ℤ) → List (ℕ × ℤ)
unfolding insert_count
add_count delta m l = insert_count (m, score m l +ℤ delta) (without m l)

-- HSET writes the given fields and keeps the others.
unfoldable pub put_field : String → Value → Fields → Fields
put_field f v [] = (f, v) ∷ []
put_field f v ((g, w) ∷ m) = if str_eq g f then (f, v) ∷ m else (g, w) ∷ put_field f v m

unfoldable pub put_fields : Fields → Fields → Fields
put_fields [] m = m
put_fields ((f, v) ∷ new) m = put_fields new (put_field f v m)

-- A command that changes the datum under a key in place, from `old` to `new`, keeps its expiry:
-- `now` is what the key would have held at the time of reading.
abbrev pub touched : Datum → Datum → Datum → Datum
touched missing now new = new
touched old missing new = missing
touched old now new = new

abbrev pub expires_at : Option ℕ → ℕ → Datum → Datum
expires_at none t d = d
expires_at (some e) t d = if ltb t e then d else missing

abbrev pub InPlace : {S : Type 0} → (S → ℕ → Key → Datum) → S → S → ℕ → Key → Datum → Type 0
InPlace read s s' t k new =
    (u : ℕ) (j : Key)
    → read s' u j ≡ (if key_eq k j then touched (read s t k) (read s u k) new else read s u j)

-- The commands, each at a time `t` in milliseconds. `read s u k` is what stands under `k` at `u`,
-- if no command comes in between.
pub record Redis : Type 1 where
  pub Store : Type 0
  pub read : Store → ℕ → Key → Datum
  -- SET key value [EX], the expiry in seconds
  pub set : Key → Value → Option ℕ → ℕ → Store → Store
  pub del : Key → Store → Store
  pub incr : Key → ℕ → Store → ℕ × Store
  pub expire : Key → ℕ → ℕ → Store → Store
  pub lmove : Key → ℕ → Store → Option ℕ × Store
  pub rpush : Key → List ℕ → ℕ → Store → Store
  pub zadd : Key → List (ℕ × ℕ) → ℕ → Store → Store
  pub zincrby : Key → ℤ → ℕ → ℕ → Store → Store
  pub hset : Key → Fields → ℕ → Store → Store
  pub read-set :
      (k : Key) (v : Value) (ex : Option ℕ) (t : ℕ) (s : Store) (u : ℕ) (j : Key)
      → read (set k v ex t s) u j ≡ (
          if key_eq k j
          then (elim ex [ none ↦ str v | some e ↦ if ltb u (t + e * 1000) then str v else missing ])
          else read s u j)
  pub read-del :
      (k : Key) (s : Store) (u : ℕ) (j : Key)
      → read (del k s) u j ≡ (if key_eq k j then missing else read s u j)
  pub incr_reply : (k : Key) (t : ℕ) (s : Store) → (incr k t s).0 ≡ counter (read s t k) + 1
  pub read-incr :
      (k : Key) (t : ℕ) (s : Store)
      → InPlace read s (incr k t s).1 t k (str (number (counter (read s t k) + 1)))
  pub read-expire :
      (k : Key) (e t : ℕ) (s : Store) (u : ℕ) (j : Key)
      → read (expire k e t s) u j ≡ (
          if key_eq k j then (if ltb u (t + e * 1000) then read s t k else missing) else read s u j)
  pub lmove_reply :
      (k : Key) (t : ℕ) (s : Store) → (lmove k t s).0 ≡ moved_one (list_of (read s t k))
  pub read-lmove :
      (k : Key) (t : ℕ) (s : Store) → InPlace read s (lmove k t s).1 t k (moved_datum (read s t k))
  pub read-rpush :
      (k : Key) (l : List ℕ) (t : ℕ) (s : Store)
      → InPlace read s (rpush k l t s) t k (list (list_of (read s t k) ++ l))
  pub read-zadd :
      (k : Key) (l : List (ℕ × ℕ)) (t : ℕ) (s : Store)
      → InPlace read s (zadd k l t s) t k (weights (add_weights l (weights_of (read s t k))))
  pub read-zincrby :
      (k : Key) (delta : ℤ) (m t : ℕ) (s : Store)
      → InPlace read s
          (zincrby k delta m t s)
          t
          k
          (counts (add_count delta m (counts_of (read s t k))))
  pub read-hset :
      (k : Key) (m : Fields) (t : ℕ) (s : Store)
      → InPlace read s (hset k m t s) t k (hash (put_fields m (hash_of (read s t k))))
