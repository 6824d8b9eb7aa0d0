-- ===== src/SourcePoller/Failures.antt =====
-- The failure counter of a source (src/services/source_poller.py).
use proxysm.Base.{
  ℕ, suc, ◌+◌, ◌≡◌, refl, ap, ◌∙◌, Bool, false, Option, none, some, List, [], ◌∷◌, arith, ◌==◌,
  if◌then◌else◌, length, or_else, Option-cases, inl, inr,
}
use proxysm.Text.{Text}
use proxysm.Models.{ProxySource}
use proxysm.ImportParser.{Url}
use proxysm.SourcePoller.{Address}
use proxysm.SourcePoller.Poll.{
  Response, response, fetch_failed, Tables, get_source, alter_source, fetched, tables_of, sync_feed,
  poll_single_source,
}

-- The response is a 200.
abbrev pub is_ok : Response → Bool
is_ok fetch_failed = false
is_ok (response code text) = code == 200

-- How many responses came after the last 200; none if there is no 200.
abbrev pub since_ok : List (Response × ℕ) → Option ℕ
since_ok [] = none
since_ok ((r, now) ∷ rest) = elim (since_ok rest) [
  | some n ↦ some n
  | none ↦ if is_ok r then some (length rest) else none
]

abbrev pub failures_in : ℕ → List ProxySource → Option ℕ
failures_in id l = elim (get_source id l) [ none ↦ none | some s ↦ some s.consecutive_failures ]

get_source-alter_source :
    (f : ProxySource → ProxySource) (id : ℕ) (l : List ProxySource)
    → ((s : ProxySource) → (f s).id ≡ s.id)
    → get_source id (alter_source f id l)
      ≡ elim (get_source id l) as (λ _. Option ProxySource) [ none ↦ none | some s ↦ some (f s) ]
unfolding get_source alter_source
get_source-alter_source f id [] h = refl
get_source-alter_source f id (s ∷ l) h = ground (arith, h s, get_source-alter_source f id l h)

id-fetched : (r : Response) (now : ℕ) (s : ProxySource) → (fetched r now s).id ≡ s.id
unfolding fetched
id-fetched fetch_failed now s = refl
id-fetched (response code text) now s = refl

failures-fetched :
    (r : Response) (now : ℕ) (s : ProxySource)
    → (fetched r now s).consecutive_failures ≡ (if is_ok r then 0 else suc s.consecutive_failures)
unfolding fetched
failures-fetched fetch_failed now s = refl
failures-fetched (response code text) now s = refl

module _ (urlparse : Text → Url) (new_id : Address → ℕ) (source : ProxySource) where
  -- The polls of one source, each with its response and its time.
  abbrev pub polls : List (Response × ℕ) → Tables → Tables
  polls [] t = t
  polls ((r, now) ∷ rest) t =
      polls rest (tables_of (poll_single_source urlparse new_id source r now t))

  sources-sync_feed :
      (text : Text) (t : Tables)
      → (tables_of (sync_feed urlparse new_id source text t)).sources ≡ t.sources
  unfolding sync_feed
  sources-sync_feed text t = ground arith

  sources-poll :
      (r : Response) (now : ℕ) (t : Tables) (s : ProxySource)
      → get_source source.id t.sources ≡ some s
      → (tables_of (poll_single_source urlparse new_id source r now t)).sources
        ≡ alter_source (fetched r now) source.id t.sources
  unfolding poll_single_source
  sources-poll fetch_failed now t s h = ground (arith, h)
  sources-poll (response code text) now t s h =
      let t' : Tables = record t {
        sources = alter_source (fetched (response code text) now) source.id t.sources;
      } in
      ground (arith, h, sources-sync_feed text t')

  failures-poll :
      (r : Response) (now n : ℕ) (t : Tables)
      → failures_in source.id t.sources ≡ some n
      → failures_in source.id
          (tables_of (poll_single_source urlparse new_id source r now t)).sources
        ≡ some (if is_ok r then 0 else suc n)
  failures-poll r now n t h = elim (Option-cases (get_source source.id t.sources)) [
    | inl e ↦ ground (arith, e)
    | inr (s, e) ↦
        ap (failures_in source.id) (sources-poll r now t s e)
        ∙ ground (
          arith,
          e,
          get_source-alter_source (fetched r now) source.id t.sources (id-fetched r now),
          failures-fetched r now s,
        )
  ]

  -- After any polls of a source that is in the table, its failure counter is the number of polls
  -- since the last 200, whatever became of the feeds; without a 200 the polls add to what it was.
  pub consecutive_failures_lem :
      (rs : List (Response × ℕ)) (n : ℕ) (t : Tables)
      → failures_in source.id t.sources ≡ some n
      → failures_in source.id (polls rs t).sources ≡ some (or_else (since_ok rs) (n + length rs))
  consecutive_failures_lem [] n t h = h ∙ ap some (omega arith)
  consecutive_failures_lem ((r, now) ∷ rest) n t h =
      consecutive_failures_lem rest (if is_ok r then 0 else suc n)
        (tables_of (poll_single_source urlparse new_id source r now t)) (failures-poll r now n t h)
      ∙ ground arith
