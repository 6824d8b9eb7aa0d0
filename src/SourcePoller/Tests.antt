-- ===== src/SourcePoller/Tests.antt =====
-- Examples for the properties of the source poller.
use proxysm.Base.{ℕ, ◌+◌, ◌≡◌, refl, true, false, none, some, List, [], ◌∷◌, ◌++◌, map, or_else}
use proxysm.Base.Int.{pos}
use proxysm.Text.{Text, codes}
use proxysm.Models.{unknown, degraded, dead, Proxy, ProxySource}
use proxysm.ImportParser.{ParsedProxy, Url}
use proxysm.SourcePoller.{
  Address, set_key, get_key, feed_set, in_rows, db_proxies, disappeared, drop_missing, reactivate,
  with_credentials, return_one, return_each, valid_status, valid_row, valid_rows, new_row, add_new,
  sync_proxies,
}
use proxysm.SourcePoller.Merge.{merged, sync_merges}
use proxysm.SourcePoller.Poll.{response, fetch_failed, Response, Tables, get_source}
use proxysm.SourcePoller.Failures.{since_ok, failures_in, polls, consecutive_failures_lem}

abbrev some_source : ProxySource
some_source = record {
  id = 1;
  type = codes "url";
  url = some (codes "http://a/list");
  provider = none;
  protocol = codes "http";
  is_active = true;
  last_polled_at = none;
  last_status_code = none;
  consecutive_failures = 2;
}

-- A row of the source that has been dead and is switched off.
abbrev known_row : Proxy
known_row = record {
  id = 10;
  source_id = 1;
  provider = none;
  host = codes "10.0.0.1";
  port = pos 8080;
  protocol = codes "http";
  username = none;
  password_encrypted = none;
  is_active = false;
  last_health_check = none;
  last_health_status = some dead;
  avg_latency = none;
}

-- A degraded row that the feed does not have.
abbrev lost_row : Proxy
lost_row = record known_row {
  id = 11;
  host = codes "10.0.0.2";
  is_active = true;
  last_health_status = some degraded;
}

abbrev entry : Text → ParsedProxy
entry h = record {
  host = h;
  port = pos 8080;
  protocol = codes "http";
  username = some (codes "u");
  password = some (codes "p");
}

-- The known proxy and a new one.
abbrev some_feed : List ParsedProxy
some_feed = entry (codes "10.0.0.1") ∷ entry (codes "10.0.0.3") ∷ []

abbrev fixed_id : Address → ℕ
fixed_id k = 12

abbrev rows_after : List Proxy
rows_after =
    record known_row {
      is_active = true;
      last_health_status = some unknown;
      username = some (codes "u");
      password_encrypted = some (codes "p");
    }
    ∷ record lost_row { is_active = false }
    ∷ record known_row {
      id = 12;
      host = codes "10.0.0.3";
      username = some (codes "u");
      password_encrypted = some (codes "p");
      is_active = true;
      last_health_status = some unknown;
    }
    ∷ []

sync_commits :
    sync_proxies fixed_id some_source some_feed (known_row ∷ lost_row ∷ []) ≡ some rows_after
unfolding sync_proxies set_key get_key feed_set in_rows db_proxies disappeared drop_missing
    reactivate with_credentials return_one return_each valid_status valid_row valid_rows new_row
    add_new
sync_commits = refl

sync_merges_example :
    rows_after
    ≡ map (merged some_source some_feed) (known_row ∷ lost_row ∷ [])
      ++ add_new fixed_id some_source
          (feed_set (codes "http") some_feed [])
          (known_row ∷ lost_row ∷ [])
          []
sync_merges_example =
    sync_merges fixed_id some_source some_feed (known_row ∷ lost_row ∷ []) rows_after sync_commits

abbrev no_address : Text → Url
no_address s = record {
  scheme = [];
  hostname = none;
  port = some none;
  username = none;
  password = none;
}

abbrev one_source : Tables
one_source = record { sources = some_source ∷ []; proxies = [] }

abbrev some_polls : List (Response × ℕ)
some_polls = (response 200 [], 10) ∷ (fetch_failed, 20) ∷ (response 503 [], 30) ∷ []

two_failures : failures_in 1 one_source.sources ≡ some 2
unfolding get_source
two_failures = refl

consecutive_failures_lem_example :
    failures_in 1 (polls no_address fixed_id some_source some_polls one_source).sources
    ≡ some (or_else (since_ok some_polls) (2 + 3))
consecutive_failures_lem_example =
    consecutive_failures_lem no_address fixed_id some_source some_polls 2 one_source two_failures
