-- ===== src/Api/Sources/Polls.antt =====
-- A poll by hand (src/api/sources.py).
use proxysm.Base.{
  ℕ, ◌≡◌, refl, ap, ◌∙◌, not, Option, none, some, List, [], ◌∷◌, ◌==◌, if◌then◌else◌, Bool-cases,
  Option-cases, inl, inr,
}
use proxysm.Text.{Text, codes, text_eq}
use proxysm.Models.{ProxySource}
use proxysm.ImportParser.{Url}
use proxysm.SourcePoller.{Address}
use proxysm.SourcePoller.Poll
use proxysm.SourcePoller.Poll.{
  Response, Tables, PollResult, polled, poll_raised, has_no_url, poll_info, poll_single_source,
  poll_single_source_by_id,
}
use proxysm.Api.Proxies.{ProxyTables}
use proxysm.Api.Sources.{
  SourceRow, get_source_row, rows_only, missing, not_url, without_url, poll_reply, poll_source,
}

abbrev row_of : Option SourceRow → Option ProxySource
row_of none = none
row_of (some row) = some row.1

get_source-rows_only :
    (id : ℕ) (l : List SourceRow) → Poll.get_source id (rows_only l) ≡ row_of (get_source_row id l)
unfolding Poll.get_source get_source_row
get_source-rows_only id [] = refl
get_source-rows_only id ((name, s) ∷ l) = elim (Bool-cases (s.id == id)) [
  | inl e ↦ rw (e) refl
  | inr e ↦ rw (e) (get_source-rows_only id l)
]

module _ (urlparse : Text → Url) (new_id : Address → ℕ) where
  -- A poll by hand of a source with a URL is a poll of its row: the three errors that the poller has
  -- of its own never reach the client. A source without a row, of another type or without a URL is
  -- answered with its own response, and nothing changes.
  pub poll_source_lem :
      (fetch : ProxySource → Response) (id now : ℕ) (db : ProxyTables)
      → poll_source urlparse new_id fetch id now db ≡ elim (get_source_row id db.sources) [
        | none ↦ (missing, db)
        | some row ↦
            if not (text_eq row.1.type (codes "url"))
            then (not_url, db)
            else if has_no_url urlparse new_id row.1
            then (without_url, db)
            else poll_reply
                (poll_info urlparse new_id id (
                  poll_single_source urlparse new_id row.1
                    (fetch row.1)
                    now
                    (record { sources = rows_only db.sources; proxies = db.proxies })))
                db
      ]
  unfolding poll_source poll_single_source_by_id
  poll_source_lem fetch id now db = elim (Option-cases (get_source_row id db.sources)) [
    | inl e ↦ rw (e, poll_source) refl
    | inr (row, e) ↦ elim (Bool-cases (text_eq row.1.type (codes "url"))) [
      | inr f ↦ rw (e, poll_source, f) refl
      | inl f ↦ elim (Bool-cases (has_no_url urlparse new_id row.1)) [
        | inl g ↦ rw (e, poll_source, f, g) refl
        | inr g ↦
            let there : Poll.get_source id (rows_only db.sources) ≡ some row.1 =
              get_source-rows_only id db.sources ∙ ap row_of e in
            rw (e, poll_source, f, g) (rw (there, poll_single_source_by_id, f, g) refl)
      ]
    ]
  ]
