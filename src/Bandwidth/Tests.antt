-- ===== src/Bandwidth/Tests.antt =====
-- An example for the accumulator.
use proxysm.Base.{Option, some, none, List, [], ◌∷◌}
use proxysm.Text.{Text, codes}
use proxysm.Bandwidth.{AccKey}

abbrev some_counters : List (Text × Option Text)
some_counters =
    (codes "bw:proxy:7:sent", some (codes "100"))
    ∷ (codes "bw:pool:1:recv", some (codes "5"))
    ∷ (codes "bw:proxy:7:recv", none)
    ∷ (codes "bw:proxy:7:sent:x", some (codes "9"))
    ∷ []

abbrev proxy_7 : AccKey
proxy_7 = (codes "proxy", codes "7")
