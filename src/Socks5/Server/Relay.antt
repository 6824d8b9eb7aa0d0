-- ===== src/Socks5/Server/Relay.antt =====
-- `_relay` of src/proxy/socks5_proxy.py, which src/proxy/http_proxy.py has too: the bytes of one
-- direction, from the reader to the writer until the end of the input.
use proxysm.Base.{ℕ, zero, suc, Bool, Option, none, some, List, [], ◌∷◌, ◌++◌, ltb, if◌then◌else◌}

-- The first `n` elements, and those behind them.
abbrev pub take {ℓ} : {A : Type ℓ} → ℕ → List A → List A
take zero l = []
take (suc n) [] = []
take (suc n) (x ∷ l) = x ∷ take n l

abbrev pub drop {ℓ} : {A : Type ℓ} → ℕ → List A → List A
drop zero l = l
drop (suc n) [] = []
drop (suc n) (x ∷ l) = drop n l

-- How `reader.read(65536)` splits the bytes that are still to come, one at least, and whether the
-- `drain` behind a chunk, which is handed to the transport before it, raises nothing.
pub record Stream : Type 0 where
  pub arrives : List ℕ → ℕ
  pub drains : List ℕ → Bool

abbrev pub chunk : ℕ → ℕ
chunk n = if ltb n 65536 then n else 65535

-- The loop: what was handed to the writer, and what was not. The size of a chunk is its predecessor plus one;
-- none means that the fuel ran out.
unfoldable pub relay : Stream → ℕ → List ℕ → List ℕ → Option (List ℕ × List ℕ)
relay io zero pending out = none
relay io (suc fuel) [] out = some (out, [])
relay io (suc fuel) (b ∷ pending) out =
    let n = chunk (io.arrives (b ∷ pending)) in
    let data_read = b ∷ take n pending in
    let rest = relay io fuel (drop n pending) (out ++ data_read) in
    if io.drains data_read then rest else some (out ++ data_read, drop n pending)
