-- ===== src/ImportParser/Tests.antt =====
-- Examples for the properties of the import parser.
use proxysm.Base.{◌≡◌, refl, true, none, some, [], ◌∷◌, ◌&&◌, not, if◌then◌else◌}
use proxysm.Base.Int.{pos}
use proxysm.Text.{Text, codes, strip, splitlines, parse_int}
use proxysm.ImportParser.{
  ParsedProxy, Url, delimited_parts, is_port, in_port_range, looks_like_host, proxy_at,
  parse_delimited, parse_proxy_list,
}
use proxysm.ImportParser.Formats.{IsPlain}
use proxysm.ImportParser.Lines.{contents, none_of, parsed, parse_proxy_list_lem}

-- A parser that finds nothing in any text.
abbrev no_url : Text → Url
no_url s = record {
  scheme = [];
  hostname = none;
  port = some none;
  username = none;
  password = none;
}

abbrev plain_host : Text
plain_host = codes "10.0.0.1"

abbrev plain_port : Text
plain_port = codes "8080"

abbrev plain_user : Text
plain_user = codes "bob"

abbrev plain_pass : Text
plain_pass = codes "s3cret"

plain_host-IsPlain : IsPlain plain_host
plain_host-IsPlain = record {
  colon = refl;
  comma = refl;
  at_sign = refl;
  space = refl;
  tab = refl;
  slash = refl;
  bracket = refl;
}

plain_port-IsPlain : IsPlain plain_port
plain_port-IsPlain = record {
  colon = refl;
  comma = refl;
  at_sign = refl;
  space = refl;
  tab = refl;
  slash = refl;
  bracket = refl;
}

plain_user-IsPlain : IsPlain plain_user
plain_user-IsPlain = record {
  colon = refl;
  comma = refl;
  at_sign = refl;
  space = refl;
  tab = refl;
  slash = refl;
  bracket = refl;
}

plain_pass-IsPlain : IsPlain plain_pass
plain_pass-IsPlain = record {
  colon = refl;
  comma = refl;
  at_sign = refl;
  space = refl;
  tab = refl;
  slash = refl;
  bracket = refl;
}

looks_like_host-plain_host : looks_like_host plain_host ≡ true
unfolding looks_like_host
looks_like_host-plain_host = refl

parse_int-plain_port : parse_int plain_port ≡ some (pos 8080)
unfolding parse_int
parse_int-plain_port = refl

in_port_range-plain_port : in_port_range (pos 8080) ≡ true
in_port_range-plain_port = refl

abbrev some_proxy : ParsedProxy
some_proxy = proxy_at plain_host none none (pos 8080)

delimited_some_proxy : parse_delimited (plain_host ∷ plain_port ∷ []) ≡ some some_proxy
unfolding parse_delimited delimited_parts strip is_port parse_int
delimited_some_proxy = refl

parse_proxy_list_lem_example :
    let lines =
      contents (splitlines (strip (codes "# list\n10.0.0.1:8080:bob:s3cret\n\nbroken"))) in
    parse_proxy_list no_url (codes "# list\n10.0.0.1:8080:bob:s3cret\n\nbroken") ≡ (
      if none_of (parsed no_url lines) && not (none_of lines)
      then none
      else some (parsed no_url lines))
parse_proxy_list_lem_example =
    parse_proxy_list_lem no_url (codes "# list\n10.0.0.1:8080:bob:s3cret\n\nbroken")
