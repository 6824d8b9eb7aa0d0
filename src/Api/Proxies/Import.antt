-- ===== src/Api/Proxies/Import.antt =====
-- The loop of `bulk_import_proxies` (src/api/proxies.py).
use proxysm.Base.{
  ℕ, suc, ◌+◌, ◌≡◌, refl, ap, sym, ◌∙◌, Bool, true, not, ◌&&◌, ◌||◌, List, [], ◌∷◌, ◌++◌, arith,
  length, length-append, All, Bool-cases, inl, inr,
}
use proxysm.Models.{Proxy, ProxySource}
use proxysm.ImportParser.{ParsedProxy}
use proxysm.SourcePoller.{Address, address_eq, address_of, in_rows, new_row}
use proxysm.SourcePoller.Feed.{address_eq-eq, address_eq_refl}
use proxysm.Api.Proxies.{address_in, with_entry, add_entries}

-- No two rows have one address, as the unique constraint wants.
abbrev pub all_distinct : List Proxy → Bool
all_distinct [] = true
all_distinct (r ∷ rows) = not (in_rows (address_of r) rows) && all_distinct rows

address_eq_flip : (j k : Address) → address_eq j k ≡ true → address_eq k j ≡ true
address_eq_flip j k h = ap (λ x. address_eq x j) (sym (address_eq-eq j k h)) ∙ address_eq_refl j

in_rows-append :
    (k : Address) (l m : List Proxy) → in_rows k (l ++ m) ≡ (in_rows k l || in_rows k m)
unfolding in_rows
in_rows-append k [] m = refl
in_rows-append k (r ∷ l) m = ground (arith, in_rows-append k l m)

module _ (new_id : Address → ℕ) (source : ProxySource) where
  address-new_row : (p : ParsedProxy) → address_of (new_row new_id source p) ≡ address_in source p
  unfolding new_row
  address-new_row p = refl

  all_distinct-append :
      (p : ParsedProxy) (rows : List Proxy)
      → all_distinct (rows ++ new_row new_id source p ∷ [])
        ≡ (all_distinct rows && not (in_rows (address_in source p) rows))
  unfolding in_rows new_row
  all_distinct-append p [] = refl
  all_distinct-append p (r ∷ rows) = ground (
    arith,
    in_rows-append (address_of r) rows (new_row new_id source p ∷ []),
    all_distinct-append p rows,
    address_eq_flip (address_of r) (address_in source p),
    address_eq_flip (address_in source p) (address_of r),
  )

  -- What a round leaves.
  in_rows-with_entry :
      (k : Address) (p : ParsedProxy) (rows : List Proxy)
      → in_rows k (with_entry new_id source p rows) ≡ (
          in_rows k rows
          || (not (in_rows (address_in source p) rows) && address_eq (address_in source p) k))
  unfolding in_rows new_row
  in_rows-with_entry k p rows = elim (Bool-cases (in_rows (address_in source p) rows)) [
    | inl e ↦ rw (e, with_entry) (ground arith)
    | inr e ↦
        rw (e, with_entry) (ground (arith, in_rows-append k rows (new_row new_id source p ∷ [])))
  ]

  in_rows-keeps :
      (k : Address) (p : ParsedProxy) (rows : List Proxy)
      → in_rows k rows ≡ true
      → in_rows k (with_entry new_id source p rows) ≡ true
  in_rows-keeps k p rows h = rw (in_rows-with_entry k p rows, h) refl

  in_rows_self :
      (p : ParsedProxy) (rows : List Proxy)
      → in_rows (address_in source p) (with_entry new_id source p rows) ≡ true
  in_rows_self p rows = ground (
    arith,
    in_rows-with_entry (address_in source p) p rows,
    address_eq_refl (address_in source p),
  )

  in_rows-add_entries :
      (k : Address) (ps : List ParsedProxy) (rows : List Proxy)
      → in_rows k rows ≡ true
      → in_rows k (add_entries new_id source ps rows).0 ≡ true
  unfolding add_entries
  in_rows-add_entries k [] rows h = h
  in_rows-add_entries k (p ∷ ps) rows h =
      in_rows-add_entries k ps (with_entry new_id source p rows) (in_rows-keeps k p rows h)

  All-in_rows :
      (ps : List ParsedProxy) (rows : List Proxy)
      → All (λ p. in_rows (address_in source p) (add_entries new_id source ps rows).0 ≡ true) ps
  unfolding add_entries
  All-in_rows [] rows = tt
  All-in_rows (p ∷ ps) rows = (
    in_rows-add_entries (address_in source p) ps (with_entry new_id source p rows)
        (in_rows_self p rows),
    All-in_rows ps (with_entry new_id source p rows),
  )

  -- The numbers.
  counts :
      (ps : List ParsedProxy) (rows : List Proxy)
      → let (rows', created, skipped) = add_entries new_id source ps rows in
        (created + skipped ≡ length ps) × (length rows' ≡ length rows + created)
  unfolding add_entries in_rows new_row
  counts [] rows = (omega arith, omega arith)
  counts (p ∷ ps) rows = elim (Bool-cases (in_rows (address_in source p) rows)) [
    | inl e ↦ let (sum, size) = counts ps rows in rw (e, add_entries) (omega (arith, sum), size)
    | inr e ↦
        let new = new_row new_id source p in
        let (sum, size) = counts ps (rows ++ new ∷ []) in
        rw (e, add_entries) (omega (arith, sum), omega (arith, size, length-append rows (new ∷ [])))
  ]

  all_distinct-add_entries :
      (ps : List ParsedProxy) (rows : List Proxy)
      → all_distinct rows ≡ true
      → all_distinct (add_entries new_id source ps rows).0 ≡ true
  unfolding add_entries in_rows new_row
  all_distinct-add_entries [] rows h = h
  all_distinct-add_entries (p ∷ ps) rows h =
      all_distinct-add_entries ps (with_entry new_id source p rows)
        (ground (arith, all_distinct-append p rows))

  no_more :
      (ps : List ParsedProxy) (rows : List Proxy)
      → All (λ p. in_rows (address_in source p) rows ≡ true) ps
      → add_entries new_id source ps rows ≡ (rows, 0, length ps)
  unfolding add_entries in_rows new_row
  no_more [] rows h = refl
  no_more (p ∷ ps) rows (here, all) =
      rw (here, add_entries) (rw (no_more ps rows all) (sum (length ps)))
    where
      sum : (n : ℕ) → Path (List Proxy × ℕ × ℕ) (rows, 0, n + 1) (rows, 0, suc n)
      sum n = let eq : n + 1 ≡ suc n = omega arith in ap (λ m. (rows, 0, m)) eq

  -- After an import every entry has a row under its address and the protocol of the import; as many
  -- rows are new as are counted as created, and the others are counted as skipped; no two rows share
  -- an address if none did before; and the same import again creates nothing.
  pub add_entries_lem :
      (ps : List ParsedProxy) (rows : List Proxy)
      → all_distinct rows ≡ true
      → let (rows', created, skipped) = add_entries new_id source ps rows in
        All (λ p. in_rows (address_in source p) rows' ≡ true) ps
        × (created + skipped ≡ length ps)
        × (length rows' ≡ length rows + created)
        × (all_distinct rows' ≡ true)
        × (add_entries new_id source ps rows' ≡ (rows', 0, length ps))
  add_entries_lem ps rows h = (
    All-in_rows ps rows,
    (counts ps rows).0,
    (counts ps rows).1,
    all_distinct-add_entries ps rows h,
    no_more ps (add_entries new_id source ps rows).0 (All-in_rows ps rows),
  )
