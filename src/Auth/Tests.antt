-- ===== src/Auth/Tests.antt =====
-- Examples for the authentication.
use proxysm.Base.{ℕ, ◌≡◌, none, List, [], ◌∷◌}
use proxysm.Base.Int.{pos}
use proxysm.Text.{Text, codes}
use proxysm.Auth.{Entry, Db, cache_get, look_up, authenticate, socks_grant}
use proxysm.Auth.Cache.{IsSound, authenticate_lem}

abbrev plain : Text → Text
plain s = s

abbrev one_project : Db
one_project = record {
  projects =
      record {
        id = 1;
        name = codes "Shop";
        slug = codes "shop";
        api_key_hash = codes "k:1";
        api_key_plain = none;
      }
      ∷ [];
  links = record { project_id = 1; pool_id = 7; priority = pos 0 } ∷ [];
  pools = record { id = 7; name = codes "main"; rotation_strategy = codes "random" } ∷ [];
}

empty-IsSound : IsSound plain socks_grant one_project []
unfolding cache_get
empty-IsSound k e h = cc

-- What a first call leaves in the cache.
abbrev after_first : List (Text × Entry (ℕ × Text))
after_first = (authenticate plain socks_grant one_project (codes "shop") (codes "k:1") 100 []).1

after_first-IsSound : IsSound plain socks_grant one_project after_first
after_first-IsSound =
    (authenticate_lem plain socks_grant one_project (λ s t h. h) (codes "shop") (codes "k:1") 100 []
      empty-IsSound).1

authenticate_lem_example :
    ((authenticate plain socks_grant one_project (codes "shop:k") (codes "1") 200 after_first).0
      ≡ look_up plain socks_grant one_project (codes "shop:k") (codes "1"))
    × IsSound plain socks_grant one_project
        (authenticate plain socks_grant one_project (codes "shop:k") (codes "1") 200 after_first).1
authenticate_lem_example =
    authenticate_lem plain socks_grant one_project (λ s t h. h) (codes "shop:k") (codes "1") 200
      after_first after_first-IsSound
