-- ===== src/Text/Split.antt =====
-- `split` on a separator, undone (src/services/bandwidth.py).
use proxysm.Base.{
  ℕ, ◌≡◌, refl, ap, sym, ◌∙◌, List, [], ◌∷◌, ◌++◌, arith, Bool-cases, inl, inr, ◌==◌,
}
use proxysm.Text.{Text, split_on}

-- The text between separators, put together again.
abbrev pub join : ℕ → List Text → Text
join c [] = []
join c (w ∷ []) = w
join c (w ∷ v ∷ ws) = w ++ c ∷ join c (v ∷ ws)

join-push : (c x : ℕ) (w : Text) (ws : List Text) → join c ((x ∷ w) ∷ ws) ≡ x ∷ join c (w ∷ ws)
join-push c x w [] = refl
join-push c x w (v ∷ ws) = refl

split_on_cons : (c : ℕ) (s : Text) → (w : Text) × (ws : List Text) × (split_on c s ≡ w ∷ ws)
split_on_cons c [] = ([], [], refl)
split_on_cons c (x ∷ s) = elim (Bool-cases (x == c)) [
  | inl e ↦ ([], split_on c s, rw e)
  | inr e ↦ let (w, ws, f) = split_on_cons c s in (x ∷ w, ws, rw (e, f))
]

pub join-split_on : (c : ℕ) (s : Text) → join c (split_on c s) ≡ s
join-split_on c [] = refl
join-split_on c (x ∷ s) =
    let (w, ws, f) = split_on_cons c s in
    let back : join c (w ∷ ws) ≡ s = ap (join c) (sym f) ∙ join-split_on c s in
    elim (Bool-cases (x == c)) [
      | inl e ↦
          let x_is : x ≡ c = ground (arith, e) in rw (e, f) (rw back (ap (λ y. y ∷ s) (sym x_is)))
      | inr e ↦ rw (e, f) (join-push c x w ws ∙ ap (λ l. x ∷ l) back)
    ]
