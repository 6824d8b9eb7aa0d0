-- ===== src/Auth/Cache.antt =====
-- The cache of `_authenticate` (src/proxy/http_proxy.py, src/proxy/socks5_proxy.py) is transparent,
-- although its key joins the slug and the API key by a colon that either may hold.
use proxysm.Base.{
  ℕ, ◌+◌, ◌≡◌, refl, ap, sym, subst, ◌∙◌, true, false, Option, none, some, List, [], ◌∷◌, ◌++◌,
  arith, ltb, if◌then◌else◌, length, length-append, Bool-cases, Option-cases, inl, inr,
}
use proxysm.Text.{Text, text_eq}
use proxysm.Text.Laws.{text_eq-eq, text_eq_refl}
use proxysm.Auth.{
  Grant, Entry, Db, cache_get, cache_del, cache_set, look_up, cache_key, from_db, authenticate,
}

text_eq_flip : (s t : Text) → text_eq s t ≡ true → text_eq t s ≡ true
text_eq_flip s t e = rw (text_eq-eq s t e) (text_eq_refl t)

off_key : (i j k : Text) → text_eq i k ≡ true → text_eq i j ≡ false → text_eq j k ≡ false
off_key i j k at_k differs = elim (Bool-cases (text_eq j k)) [
  | inl f ↦ let eq : text_eq i j ≡ true = ap (text_eq i) (text_eq-eq j k f) ∙ at_k in cc
  | inr f ↦ f
]

-- What stands before a separator is fixed by what stands behind it.
prefix_unique : (s t k : Text) (c : ℕ) → s ++ c ∷ k ≡ t ++ c ∷ k → s ≡ t
prefix_unique [] [] k c h = refl
prefix_unique [] (y ∷ t) k c h = absurd (omega (arith, ap length h, length-append t (c ∷ k)))
prefix_unique (x ∷ s) [] k c h = absurd (omega (arith, ap length h, length-append s (c ∷ k)))
prefix_unique (x ∷ s) (y ∷ t) k c h = ground (arith, prefix_unique s t k c)

module _ {A : Type 0} where
  get-set :
      (k j : Text) (e : Entry A) (l : List (Text × Entry A))
      → cache_get k (cache_set j e l) ≡ (if text_eq j k then some e else cache_get k l)
  unfolding cache_get cache_set
  get-set k j e [] = refl
  get-set k j e ((i, d) ∷ l) = elim (Bool-cases (text_eq i j)) [
    | inl same ↦ rw same (rw (text_eq-eq i j same) (ground arith))
    | inr differs ↦ rw differs (elim (Bool-cases (text_eq i k)) [
      | inl at_k ↦ rw (at_k, off_key i j k at_k differs)
      | inr off ↦ rw off (get-set k j e l)
    ])
  ]

  get-del :
      (k j : Text) (l : List (Text × Entry A))
      → cache_get k (cache_del j l) ≡ (if text_eq j k then none else cache_get k l)
  unfolding cache_get cache_del
  get-del k j [] = ground arith
  get-del k j ((i, d) ∷ l) = elim (Bool-cases (text_eq i j)) [
    | inl same ↦ rw same (rw (text_eq-eq i j same) (ground (arith, get-del k j l)))
    | inr differs ↦ rw differs (elim (Bool-cases (text_eq i k)) [
      | inl at_k ↦ rw (at_k, off_key i j k at_k differs)
      | inr off ↦ rw off (get-del k j l)
    ])
  ]

  module _ (sha256 : Text → Text) (keep : Grant → A) (db : Db) where
    -- An entry was made for credentials with its key, for which the tables give what it keeps.
    abbrev Made : Text → Entry A → Type 0
    Made k e =
        (slug : Text) × (api_key : Text) × (k ≡ cache_key slug api_key)
        × (e.stored_hash ≡ sha256 api_key)
        × (look_up sha256 keep db slug api_key ≡ some e.kept)

    abbrev pub IsSound : List (Text × Entry A) → Type 0
    IsSound l = (k : Text) (e : Entry A) → cache_get k l ≡ some e → Made k e

    IsSound-del : (j : Text) (l : List (Text × Entry A)) → IsSound l → IsSound (cache_del j l)
    IsSound-del j l h k e g = h k e (ground (arith, get-del k j l))

    IsSound-set :
        (j : Text) (new : Entry A) (l : List (Text × Entry A))
        → Made j new
        → IsSound l
        → IsSound (cache_set j new l)
    IsSound-set j new l made h k e g = elim (Bool-cases (text_eq j k)) [
      | inl same ↦
          let is_new : new ≡ e = ground (arith, get-set k j new l) in
          subst (λ x. Made x e) (text_eq-eq j k same) (subst (Made j) is_new made)
      | inr differs ↦ h k e (ground (arith, get-set k j new l))
    ]

    -- What `authenticate` should do: what the tables say, with a cache that is still sound.
    abbrev Agrees : Text → Text → Option A × List (Text × Entry A) → Type 0
    Agrees slug api_key (r, l) = (r ≡ look_up sha256 keep db slug api_key) × IsSound l

    Agrees-from_db :
        (slug api_key : Text) (now : ℕ) (l : List (Text × Entry A))
        → IsSound l
        → Agrees slug api_key (from_db sha256 keep db slug api_key now l)
    unfolding from_db
    Agrees-from_db slug api_key now l h =
        elim (Option-cases (look_up sha256 keep db slug api_key)) [
          | inl e ↦ rw (e, from_db) (refl, h)
          | inr (a, e) ↦
              rw (e, from_db)
                (
                  refl,
                  IsSound-set (cache_key slug api_key)
                      (record { stored_hash = sha256 api_key; kept = a; expiry = now + 30000 }) l
                      (slug, api_key, refl, refl, e) h,
                )
        ]

    module _ (injective : (s t : Text) → sha256 s ≡ sha256 t → s ≡ t) where
      -- A hit whose hash agrees gives what the tables give.
      hit :
          (slug api_key : Text) (e : Entry A)
          → Made (cache_key slug api_key) e
          → sha256 api_key ≡ e.stored_hash
          → some e.kept ≡ look_up sha256 keep db slug api_key
      hit slug api_key e (slug', api_key', key_is, hash_is, found) same =
          let key_eq : api_key ≡ api_key' = injective api_key api_key' (same ∙ hash_is) in
          let slug_eq : slug ≡ slug' =
            prefix_unique slug slug' api_key b':'
              (key_is ∙ ap (λ x. slug' ++ b':' ∷ x) (sym key_eq)) in
          sym found
          ∙ ap (λ x. look_up sha256 keep db x api_key') (sym slug_eq)
          ∙ ap (look_up sha256 keep db slug) (sym key_eq)

      -- While the tables stay as they are, the answer is that of the tables and the cache stays
      -- sound, whatever was cached before, if the hash is injective.
      pub authenticate_lem :
          (slug api_key : Text) (now : ℕ) (l : List (Text × Entry A))
          → IsSound l
          → ((authenticate sha256 keep db slug api_key now l).0
              ≡ look_up sha256 keep db slug api_key)
            × IsSound (authenticate sha256 keep db slug api_key now l).1
      unfolding authenticate
      authenticate_lem slug api_key now l h =
          let k = cache_key slug api_key in
          elim (Option-cases (cache_get k l)) [
            | inl e ↦ rw (e, authenticate) (Agrees-from_db slug api_key now l h)
            | inr (entry, e) ↦ elim (Bool-cases (ltb now entry.expiry)) [
              | inr late ↦
                  rw (e, late, authenticate)
                    (Agrees-from_db slug api_key now (cache_del k l) (IsSound-del k l h))
              | inl early ↦ elim (Bool-cases (text_eq (sha256 api_key) entry.stored_hash)) [
                | inl same ↦
                    rw (e, early, same, authenticate)
                      (
                        hit slug api_key entry (h k entry e)
                            (text_eq-eq (sha256 api_key) entry.stored_hash same),
                        h,
                      )
                | inr other ↦
                    rw (e, early, other, authenticate) (Agrees-from_db slug api_key now l h)
              ]
            ]
          ]
