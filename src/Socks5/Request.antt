-- ===== src/Socks5/Request.antt =====
-- What a conforming client gets from the handshake (src/proxy/socks5_proxy.py).
use proxysm.Base.{
  ℕ, ◌+◌, ◌*◌, ◌/◌, ◌%◌, ◌≡◌, refl, ap, ◌∙◌, Option, some, List, [], ◌∷◌, ◌++◌, arith, length,
}
use proxysm.Text.{Text}
use proxysm.Socks5.{
  request, after_writing, read_exactly, read_port, read_domain, read_address, read_request,
  check_credentials, read_password, read_credentials, handshake,
}

-- The bytes of a client that offers only a password, logs in and asks for a domain.
abbrev pub client : List ℕ → List ℕ → List ℕ → ℕ → List ℕ → List ℕ
client user pass host port rest =
    5
    ∷ 1
    ∷ 2
    ∷ 1
    ∷ length user
    ∷ (user
        ++ length pass
          ∷ (pass ++ 5 ∷ 1 ∷ 0 ∷ 3 ∷ length host ∷ (host ++ (port / 256) ∷ (port % 256) ∷ rest)))

read_exactly-append : (l rest : List ℕ) → read_exactly (length l) (l ++ rest) ≡ some (l, rest)
unfolding read_exactly
read_exactly-append [] rest = refl
read_exactly-append (b ∷ l) rest = rw (read_exactly-append l rest)

module _ {A : Type 0} (decode : List ℕ → Text) (authenticate : Text → Text → Option A) where
  read_domain_client :
      (a : A) (host rest : List ℕ) (port : ℕ)
      → read_domain decode a (length host ∷ (host ++ port / 256 ∷ port % 256 ∷ rest))
        ≡ ([], request a (decode host) port rest)
  unfolding read_domain read_port read_exactly
  read_domain_client a host rest port =
      let back : port / 256 * 256 + port % 256 ≡ port = omega arith in
      rw (read_exactly-append host (port / 256 ∷ port % 256 ∷ rest), read_domain)
        (ap (λ n. ([], request a (decode host) n rest)) back)

  read_password_client :
      (name : Text) (pass bytes : List ℕ)
      → read_password decode authenticate name (length pass ∷ (pass ++ bytes))
        ≡ check_credentials decode authenticate name (decode pass) bytes
  unfolding read_password
  read_password_client name pass bytes = rw (read_exactly-append pass bytes, read_password)

  read_credentials_client :
      (user bytes : List ℕ)
      → read_credentials decode authenticate (1 ∷ length user ∷ (user ++ bytes))
        ≡ read_password decode authenticate (decode user) bytes
  unfolding read_credentials
  read_credentials_client user bytes = rw (read_exactly-append user bytes, read_credentials)

  -- A client whose credentials are accepted is granted its request, whatever it sends behind it: the
  -- host and the port are those that it asked for, and the bytes written are the choice of the
  -- method and the acceptance.
  pub handshake-client :
      (user pass host rest : List ℕ) (port : ℕ) (a : A)
      → authenticate (decode user) (decode pass) ≡ some a
      → handshake decode authenticate (client user pass host port rest)
        ≡ (5 ∷ 2 ∷ 1 ∷ 0 ∷ [], request a (decode host) port rest)
  unfolding handshake check_credentials read_request read_address read_exactly
  handshake-client user pass host rest port a h =
      let asked = length host ∷ (host ++ port / 256 ∷ port % 256 ∷ rest) in
      let after_user = length pass ∷ (pass ++ 5 ∷ 1 ∷ 0 ∷ 3 ∷ asked) in
      ap (after_writing (5 ∷ 2 ∷ [])) (
        read_credentials_client user after_user
        ∙ read_password_client (decode user) pass (5 ∷ 1 ∷ 0 ∷ 3 ∷ asked)
        ∙ rw (h, check_credentials)
            (ap (after_writing (1 ∷ 0 ∷ [])) (read_domain_client a host rest port)))
