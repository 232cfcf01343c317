-- ===== src/Socks/RoundTrip.antt =====
-- socks/request.go: the address of a reply is what a client reads.
use mathlib.Core.List.{append_assoc}
use shitflared.Prelude.{
  ℕ, ◌%◌, ◌^◌, ◌≡◌, ◌<◌, refl, ap, ◌∙◌, arith, true, false, List, [], ◌∷◌, ◌++◌, none, some, length,
  drop, ltb, ◌==◌, length-append, take-append_length, drop-append_length,
}
use shitflared.Prelude.Bytes.{put_be, length-put_be, get_be-put_be}
use shitflared.Socks.{
  AddrSpec, read_bytes, read_port, with_ip, with_fqdn, read_addr_of_type, read_addr_spec, ip_to_4,
  ip_to_16, format_reply, ip_reply, send_reply,
}

read_bytes-append :
    (n : ℕ) (xs ys : List ℕ) → length xs ≡ n → read_bytes n (xs ++ ys) ≡ some (xs, ys)
unfolding read_bytes
read_bytes-append n xs ys h =
    let enough : ltb (length (xs ++ ys)) n ≡ false = ground (arith, length-append xs ys, h) in
    rw enough (λ i. some (take-append_length n xs ys h i, drop-append_length n xs ys h i))

read_port_back :
    (fqdn ip : List ℕ) (port : ℕ) (rest : List ℕ)
    → port < 2 ^ 16
    → read_port fqdn ip (read_bytes 2 (put_be 2 (port % 2 ^ 16) ++ rest))
      ≡ some (record { fqdn = fqdn; ip = ip; port = port }, rest)
read_port_back fqdn ip port rest h =
    ap (read_port fqdn ip)
      (read_bytes-append 2 (put_be 2 (port % 2 ^ 16)) rest (length-put_be 2 (port % 2 ^ 16)))
    ∙ ap (λ p. some (record { fqdn = fqdn; ip = ip; port = p }, rest))
        (get_be-put_be 2 (port % 2 ^ 16) (omega arith) ∙ omega (arith, h))

-- The hosts that a reply can name: an address of 4 bytes, one of 16 that is not a mapped one, and a
-- name with its first byte.
pub data Host : Type 0 where
  of_4 of_16 : (ip : List ℕ) → Host
  named : (first : ℕ) → (name : List ℕ) → Host

abbrev pub Fits : Host → Type 0
Fits (of_4 ip) = length ip ≡ 4
Fits (of_16 ip) = (length ip ≡ 16) × (ip_to_4 ip ≡ none)
Fits (named first name) = length (first ∷ name) < 256

abbrev pub spec_of : Host → ℕ → AddrSpec
spec_of (of_4 ip) port = record { fqdn = []; ip = ip; port = port }
spec_of (of_16 ip) port = record { fqdn = []; ip = ip; port = port }
spec_of (named first name) port = record { fqdn = first ∷ name; ip = []; port = port }

abbrev type_of : Host → ℕ
type_of (of_4 ip) = 1
type_of (of_16 ip) = 4
type_of (named first name) = 3

abbrev body_of : Host → List ℕ
body_of (of_4 ip) = ip
body_of (of_16 ip) = ip
body_of (named first name) = length (first ∷ name) % 2 ^ 8 ∷ first ∷ name

four_bytes : (ip : List ℕ) → length ip ≡ 4 → ip_to_4 ip ≡ some ip
unfolding ip_to_4
four_bytes ip h = let four : (length ip == 4) ≡ true = ground (arith, h) in rw four refl

sixteen_bytes : (ip : List ℕ) → length ip ≡ 16 → ip_to_16 ip ≡ some ip
unfolding ip_to_16
sixteen_bytes ip h =
    let more : (length ip == 4) ≡ false = ground (arith, h) in
    let sixteen : (length ip == 16) ≡ true = ground (arith, h) in rw (more, sixteen) refl

sent :
    (resp : ℕ) (host : Host) (port : ℕ)
    → Fits host
    → send_reply resp (some (spec_of host port))
      ≡ some (format_reply resp (type_of host) (body_of host) port)
unfolding send_reply
sent resp (of_4 ip) port fits = ap (λ o. ip_reply resp port o (ip_to_16 ip)) (four_bytes ip fits)
sent resp (of_16 ip) port (long, mapped) =
    ap (λ o. ip_reply resp port o (ip_to_16 ip)) mapped
    ∙ ap (ip_reply resp port none) (sixteen_bytes ip long)
sent resp (named first name) port fits = refl

read_host :
    (host : Host) (port : ℕ) (rest : List ℕ)
    → Fits host
    → port < 2 ^ 16
    → read_addr_of_type (type_of host) (body_of host ++ (put_be 2 (port % 2 ^ 16) ++ rest))
      ≡ some (spec_of host port, rest)
read_host (of_4 ip) port rest fits small =
    ap with_ip (read_bytes-append 4 ip (put_be 2 (port % 2 ^ 16) ++ rest) fits)
    ∙ read_port_back [] ip port rest small
read_host (of_16 ip) port rest fits small =
    ap with_ip (read_bytes-append 16 ip (put_be 2 (port % 2 ^ 16) ++ rest) fits.0)
    ∙ read_port_back [] ip port rest small
read_host (named first name) port rest fits small =
    let len : length (first ∷ name) ≡ length (first ∷ name) % 2 ^ 8 = omega (arith, fits) in
    ap with_fqdn (
      read_bytes-append (length (first ∷ name) % 2 ^ 8) (first ∷ name)
        (put_be 2 (port % 2 ^ 16) ++ rest) len)
    ∙ read_port_back (first ∷ name) [] port rest small

-- The address in a reply is read back, with what follows the reply left to read: an address of IPv4,
-- one of IPv6 that is no mapped one, or a name of at most 255 bytes, and a port below 2^16.
pub read_addr_spec-send_reply :
    (resp : ℕ) (host : Host) (port : ℕ) (rest : List ℕ)
    → Fits host
    → port < 2 ^ 16
    → (msg : List ℕ) × ((send_reply resp (some (spec_of host port)) ≡ some msg)
        × (read_addr_spec (drop 3 msg ++ rest) ≡ some (spec_of host port, rest)))
unfolding read_addr_spec
read_addr_spec-send_reply resp host port rest fits small = (
  format_reply resp (type_of host) (body_of host) port,
  (
    sent resp host port fits,
    ap (read_addr_of_type (type_of host))
          (append_assoc (body_of host) (put_be 2 (port % 2 ^ 16)) rest)
        ∙ read_host host port rest fits small,
  ),
)
