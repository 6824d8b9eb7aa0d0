-- ===== src/Rotation/RoundRobin/Order.antt =====
-- The order in which LMOVE takes the members of a list from its end.
use proxysm.Base.{
  ℕ, ◌≡◌, refl, sym, ap, some, List, [], ◌∷◌, ◌++◌, append-nil, append_assoc, arith, length,
  length-append, All,
}
use proxysm.Redis.{list, moved, moved_one, move_last, moved_datum, touched}

pub move_last-append : (xs : List ℕ) (x : ℕ) → move_last (xs ++ x ∷ []) ≡ some (x, xs)
move_last-append [] x = refl
move_last-append (y ∷ ys) x = rw (move_last-append ys x)

pub moved_one-append : (xs : List ℕ) (x : ℕ) → moved_one (xs ++ x ∷ []) ≡ some x
moved_one-append xs x = rw (move_last-append xs x, moved_one)

pub moved-append : (xs : List ℕ) (x : ℕ) → moved (xs ++ x ∷ []) ≡ x ∷ xs
moved-append xs x = rw (move_last-append xs x, moved)

pub touched_list :
    (xs : List ℕ) (x : ℕ)
    → touched (list (xs ++ x ∷ [])) (list (xs ++ x ∷ [])) (moved_datum (list (xs ++ x ∷ [])))
      ≡ list (x ∷ xs)
touched_list xs x = ap list (moved-append xs x)

-- The members of a list in the order in which LMOVE takes them from its end.
abbrev pub behind : List ℕ → List ℕ
behind [] = []
behind (w ∷ ws) = behind ws ++ w ∷ []

pub behind-append : (xs ys : List ℕ) → behind (xs ++ ys) ≡ behind ys ++ behind xs
behind-append [] ys = sym (append-nil (behind ys))
behind-append (x ∷ xs) ys = rw (behind-append xs ys) (append_assoc (behind ys) (behind xs) (x ∷ []))

pub behind-behind : (xs : List ℕ) → behind (behind xs) ≡ xs
behind-behind [] = refl
behind-behind (x ∷ xs) = rw (behind-append (behind xs) (x ∷ []), behind-behind xs)

pub length-behind : (xs : List ℕ) → length (behind xs) ≡ length xs
length-behind [] = refl
length-behind (x ∷ xs) = rw (length-append (behind xs) (x ∷ [])) (omega (arith, length-behind xs))

module _ (P : ℕ → Type 0) where
  pub All-append : (xs ys : List ℕ) → All P xs → All P ys → All P (xs ++ ys)
  All-append [] ys h k = k
  All-append (x ∷ xs) ys h k = (h.0, All-append xs ys h.1 k)

  pub All-behind : (xs : List ℕ) → All P xs → All P (behind xs)
  All-behind [] h = h
  All-behind (x ∷ xs) h = All-append (behind xs) (x ∷ []) (All-behind xs h.1) (h.0, tt)
