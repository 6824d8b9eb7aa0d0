-- ===== src/SourcePoller/Poll.antt =====
-- Polling of src/services/source_poller.py: what a response does to the row of the source, and when
-- the feed is merged. What the HTTP client returns is an argument.
use proxysm.Base.{
  ℕ, suc, Bool, true, not, ◌&&◌, Option, none, some, List, [], ◌∷◌, ◌==◌, if◌then◌else◌, length,
}
use proxysm.Text.{Text, codes, text_eq, is_empty}
use proxysm.Models.{Proxy, ProxySource}
use proxysm.ImportParser.{Url, parse_proxy_list}
use proxysm.SourcePoller.{Address, sync_proxies, db_proxies}

-- A status code and a text, or an exception of the client.
pub data Response : Type 0 where
  response : ℕ → Text → Response
  fetch_failed : Response

pub record Tables : Type 0 where
  pub sources : List ProxySource
  pub proxies : List Proxy

-- `session.get(ProxySource, id)`
unfoldable pub get_source : ℕ → List ProxySource → Option ProxySource
get_source id [] = none
get_source id (s ∷ l) = let rest = get_source id l in if s.id == id then some s else rest

-- The row with an id is changed.
unfoldable pub alter_source : (ProxySource → ProxySource) → ℕ → List ProxySource → List ProxySource
alter_source f id [] = []
alter_source f id (s ∷ l) =
    let rest = alter_source f id l in if s.id == id then f s ∷ l else s ∷ rest

-- What a response does to the row of the source.
unfoldable pub fetched : Response → ℕ → ProxySource → ProxySource
fetched fetch_failed now src = record src {
  consecutive_failures = suc src.consecutive_failures;
  last_polled_at = some now;
  last_status_code = none;
}
fetched (response code text) now src = record src {
  last_polled_at = some now;
  last_status_code = some code;
  consecutive_failures = if code == 200 then 0 else suc src.consecutive_failures;
}

-- An exception left the function, or it returned; with the tables as committed.
pub data Outcome : Type 0 where
  raised : Tables → Outcome
  returned : Tables → Outcome

abbrev pub tables_of : Outcome → Tables
tables_of (raised t) = t
tables_of (returned t) = t

-- The dict of `poll_single_source_by_id`.
pub record PollInfo : Type 0 where
  pub source_id : ℕ
  pub last_polled_at : Option ℕ
  pub last_status_code : Option ℕ
  pub consecutive_failures : ℕ
  pub proxy_count : ℕ

-- The three messages of its `ValueError`, another exception, or the dict.
pub data PollResult : Type 0 where
  source_not_found only_url_sources no_url_configured : PollResult
  poll_raised : Tables → PollResult
  polled : PollInfo → Tables → PollResult

module _ (urlparse : Text → Url) (new_id : Address → ℕ) where
  -- The feed of a 200 is parsed and merged; a feed without a valid line changes nothing.
  unfoldable pub sync_feed : ProxySource → Text → Tables → Outcome
  sync_feed source text t = elim (parse_proxy_list urlparse text) [
    | none ↦ returned t
    | some parsed ↦ elim (sync_proxies new_id source parsed t.proxies) [
      | none ↦ raised t
      | some rows ↦ returned (record t { proxies = rows })
    ]
  ]

  -- A source that is gone has no row to change, and the function raises.
  unfoldable pub poll_single_source : ProxySource → Response → ℕ → Tables → Outcome
  unfolding get_source alter_source fetched sync_feed
  poll_single_source source r now t = elim (get_source source.id t.sources) [
    | none ↦ raised t
    | some src ↦
        let t' : Tables = record t { sources = alter_source (fetched r now) source.id t.sources } in
        elim r [
          | fetch_failed ↦ returned t'
          | response code text ↦ if code == 200 then sync_feed source text t' else returned t'
        ]
  ]

  -- The active sources of type "url".
  unfoldable pub url_sources : List ProxySource → List ProxySource
  url_sources [] = []
  url_sources (s ∷ l) =
      let rest = url_sources l in
      if text_eq s.type (codes "url") && s.is_active then s ∷ rest else rest

  -- `except Exception`: the next source is polled whether or not one raised.
  unfoldable pub poll_each : (ProxySource → Response) → ℕ → List ProxySource → Tables → Tables
  unfolding poll_single_source
  poll_each fetch now [] t = t
  poll_each fetch now (s ∷ l) t =
      poll_each fetch now l (tables_of (poll_single_source s (fetch s) now t))

  unfoldable pub poll_all_sources : (ProxySource → Response) → ℕ → Tables → Tables
  unfolding url_sources poll_each
  poll_all_sources fetch now t = poll_each fetch now (url_sources t.sources) t

  -- `not source.url`
  abbrev pub has_no_url : ProxySource → Bool
  has_no_url s = elim s.url [ none ↦ true | some u ↦ is_empty u ]

  abbrev pub poll_info : ℕ → Outcome → PollResult
  poll_info id (raised t) = poll_raised t
  poll_info id (returned t) = elim (get_source id t.sources) [
    | none ↦ poll_raised t
    | some s ↦
        polled
          (record {
            source_id = s.id;
            last_polled_at = s.last_polled_at;
            last_status_code = s.last_status_code;
            consecutive_failures = s.consecutive_failures;
            proxy_count = length (db_proxies id t.proxies);
          })
          t
  ]

  unfoldable pub poll_single_source_by_id : (ProxySource → Response) → ℕ → ℕ → Tables → PollResult
  unfolding get_source poll_single_source
  poll_single_source_by_id fetch id now t = elim (get_source id t.sources) [
    | none ↦ source_not_found
    | some s ↦
        if not (text_eq s.type (codes "url"))
        then only_url_sources
        else if has_no_url s
        then no_url_configured
        else poll_info id (poll_single_source s (fetch s) now t)
  ]
