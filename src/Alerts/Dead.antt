-- ===== src/Alerts/Dead.antt =====
-- When the rule "all_proxies_dead" fires (src/services/alerts.py).
use proxysm.Base.{
  ℕ, ◌≤◌, ◌<◌, ◌≡◌, ◌↔◌, refl, ap, sym, Bool, true, false, ◌&&◌, Option, none, some, List, [], ◌∷◌,
  arith, ltb, length, ◌==◌, All, Bool-cases, inl, inr,
}
use proxysm.Models.{Status, unknown, healthy, degraded, dead, other, Proxy}
use proxysm.Alerts.Conditions.{fires, all_dead, Db, count, is_dead_row, check_all_dead}

abbrev pub IsDead : Proxy → Type 0
IsDead p = p.last_health_status ≡ some dead

is_dead_row-IsDead :
    (o : Option Status) → (elim o [ some dead ↦ true | _ ↦ false ]) ≡ true → o ≡ some dead
is_dead_row-IsDead (some dead) h = refl
is_dead_row-IsDead (some unknown) h = cc
is_dead_row-IsDead (some healthy) h = cc
is_dead_row-IsDead (some degraded) h = cc
is_dead_row-IsDead (some (other s)) h = cc
is_dead_row-IsDead none h = cc

count-length : {A : Type 0} → (p : A → Bool) (l : List A) → count p l ≤ length l
unfolding count
count-length p [] = omega arith
count-length p (x ∷ l) = ground (arith, count-length p l)

count-All : (l : List Proxy) → count is_dead_row l ≡ length l → All IsDead l
unfolding count
count-All [] h = tt
count-All (p ∷ l) h = elim (Bool-cases (is_dead_row p)) [
  | inl e ↦
      let rest : count is_dead_row l ≡ length l = ground (arith, e, h) in
      (is_dead_row-IsDead p.last_health_status e, count-All l rest)
  | inr e ↦ ground (arith, e, h, count-length is_dead_row l)
]

All-count : (l : List Proxy) → All IsDead l → count is_dead_row l ≡ length l
unfolding count
All-count [] h = refl
All-count (p ∷ l) (here, all) =
    let yes_dead : is_dead_row p ≡ true = rw here refl in
    rw yes_dead (omega (arith, All-count l all))

-- The rule fires with a number exactly if that is the number of all proxies, there is one, and every
-- one is recorded as dead.
pub check_all_dead_lem :
    (db : Db) (n : ℕ)
    → (check_all_dead db ≡ fires (all_dead n))
      ↔ ((n ≡ length db.proxies) × (0 < n) × All IsDead db.proxies)
unfolding check_all_dead
check_all_dead_lem db n = (to, from)
  where
    to :
        check_all_dead db ≡ fires (all_dead n)
        → (n ≡ length db.proxies) × (0 < n) × All IsDead db.proxies
    to h =
        elim (Bool-cases
          (ltb 0 (length db.proxies) && count is_dead_row db.proxies == length db.proxies)) [
            | inr e ↦ ground (arith, e)
            | inl e ↦
                let eq : fires (all_dead (length db.proxies)) ≡ fires (all_dead n) = rw e at h in
                let same : n ≡ length db.proxies = cc in
                (same, ground (arith, e, same), count-All db.proxies (ground (arith, e)))
          ]

    from :
        (n ≡ length db.proxies) × (0 < n) × All IsDead db.proxies
        → check_all_dead db ≡ fires (all_dead n)
    from (same, positive, all) =
        let both : (ltb 0 (length db.proxies) && count is_dead_row db.proxies == length db.proxies)
            ≡ true =
          ground (arith, All-count db.proxies all) in
        rw both (ap (λ m. fires (all_dead m)) (sym same))
