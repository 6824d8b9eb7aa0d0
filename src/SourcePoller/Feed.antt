-- ===== src/SourcePoller/Feed.antt =====
-- The dict of the feed: the last entry with an address counts, and no address stands twice.
use proxysm.Base.{
  ◌≡◌, refl, ap, ◌∙◌, sym, true, false, Option, none, some, List, [], ◌∷◌, arith, if◌then◌else◌,
  Bool-cases, inl, inr,
}
use proxysm.Base.Int.{eq_ℤ-eq, eq_ℤ_refl}
use proxysm.Text.{Text}
use proxysm.Text.Laws.{text_eq-eq, text_eq_refl}
use proxysm.ImportParser.{ParsedProxy}
use proxysm.SourcePoller.{Address, address_eq, FeedSet, set_key, get_key, feed_set}

pub address_eq-eq : (j k : Address) → address_eq j k ≡ true → j ≡ k
address_eq-eq (h, p, r) (h', p', r') e =
    ground (arith, text_eq-eq h h', eq_ℤ-eq p p', text_eq-eq r r')

pub address_eq_refl : (k : Address) → address_eq k k ≡ true
address_eq_refl (h, p, r) = ground (arith, text_eq_refl h, eq_ℤ_refl p, text_eq_refl r)

address_eq_flip : (j k : Address) → address_eq j k ≡ true → address_eq k j ≡ true
address_eq_flip j k e = rw (address_eq-eq j k e) (address_eq_refl k)

pub address_eq_sym : (j k : Address) → address_eq j k ≡ address_eq k j
address_eq_sym j k = ground (arith, address_eq_flip j k, address_eq_flip k j)

-- The last entry of a feed with an address.
abbrev pub last_for : Text → Address → List ParsedProxy → Option ParsedProxy
last_for protocol k [] = none
last_for protocol k (p ∷ ps) = elim (last_for protocol k ps) [
  | some q ↦ some q
  | none ↦ if address_eq (p.host, p.port, protocol) k then some p else none
]

get_key-set_key :
    (j k : Address) (p : ParsedProxy) (d : FeedSet)
    → get_key k (set_key j p d) ≡ (if address_eq j k then some p else get_key k d)
unfolding get_key set_key
get_key-set_key j k p [] = refl
get_key-set_key j k p ((i, q) ∷ d) = elim (Bool-cases (address_eq i j)) [
  | inl same ↦ rw same (rw (address_eq-eq i j same) (ground arith))
  | inr differs ↦ rw differs (elim (Bool-cases (address_eq i k)) [
    | inl at_k ↦
        let not_j : address_eq j k ≡ false = elim (Bool-cases (address_eq j k)) [
          | inl e ↦
              let i_is : i ≡ j = address_eq-eq i k at_k ∙ sym (address_eq-eq j k e) in
              let eq : address_eq i j ≡ true = ap (λ x. address_eq x j) i_is ∙ address_eq_refl j in
              cc
          | inr e ↦ e
        ] in
        rw (at_k, not_j)
    | inr off ↦ rw off (get_key-set_key j k p d)
  ])
]

get_key-feed_set_from :
    (protocol : Text) (k : Address) (ps : List ParsedProxy) (d : FeedSet)
    → get_key k (feed_set protocol ps d)
      ≡ elim (last_for protocol k ps) as (λ _. Option ParsedProxy) [
        | some q ↦ some q
        | none ↦ get_key k d
      ]
unfolding feed_set
get_key-feed_set_from protocol k [] d = refl
get_key-feed_set_from protocol k (p ∷ ps) d =
    let key : Address = (p.host, p.port, protocol) in
    ground (arith, get_key-feed_set_from protocol k ps (set_key key p d), get_key-set_key key k p d)

pub get_key-feed_set :
    (protocol : Text) (k : Address) (ps : List ParsedProxy)
    → get_key k (feed_set protocol ps []) ≡ last_for protocol k ps
unfolding get_key
get_key-feed_set protocol k ps = ground (arith, get_key-feed_set_from protocol k ps [])

-- No address stands twice.
abbrev pub Distinct : FeedSet → Type 0
Distinct [] = Unit
Distinct ((k, p) ∷ l) = (get_key k l ≡ none) × Distinct l

Distinct-set_key :
    (j : Address) (p : ParsedProxy) (d : FeedSet) → Distinct d → Distinct (set_key j p d)
unfolding set_key get_key
Distinct-set_key j p [] h = (refl, tt)
Distinct-set_key j p ((i, q) ∷ d) (fresh, h) = elim (Bool-cases (address_eq i j)) [
  | inl same ↦ rw same (fresh, h)
  | inr differs ↦
      rw differs
        (ground (arith, get_key-set_key j i p d, address_eq_sym i j), Distinct-set_key j p d h)
]

pub Distinct-feed_set :
    (protocol : Text) (ps : List ParsedProxy) (d : FeedSet)
    → Distinct d
    → Distinct (feed_set protocol ps d)
unfolding feed_set
Distinct-feed_set protocol [] d h = h
Distinct-feed_set protocol (p ∷ ps) d h =
    Distinct-feed_set protocol ps (set_key (p.host, p.port, protocol) p d)
      (Distinct-set_key (p.host, p.port, protocol) p d h)
