-- ===== src/Socks.antt =====
-- socks/request.go and socks/request_handler.go: requests of SOCKS5 and their replies, as bytes, and
-- the connections that they make under a policy of IpAccess. The bytes that are copied afterwards are
-- left out. The resolver and the dialer are arguments.
pub mod Access
pub mod RoundTrip
mod Tests
use shitflared.Prelude.{
  ℕ, ◌+◌, ◌-◌, ◌*◌, ◌%◌, ◌^◌, Bool, true, false, not, ◌&&◌, List, [], ◌∷◌, ◌++◌, Option, none, some,
  length, take, drop, ltb, ◌==◌, if◌then◌else◌,
}
use shitflared.Prelude.Bytes.{put_be, get_be}
use shitflared.IpAccess.{Policy, Rule, allowed, same_bytes, mapped_prefix}

-- An address that is not there is empty, as `nil` is.
pub record AddrSpec : Type 0 where
  pub fqdn : List ℕ
  pub ip : List ℕ
  pub port : ℕ

pub record Request : Type 0 where
  pub version : ℕ
  pub command : ℕ
  pub dest_addr : AddrSpec

-- `io.ReadAtLeast` of `n` bytes, with what is left to read.
unfoldable pub read_bytes : ℕ → List ℕ → Option (List ℕ × List ℕ)
read_bytes n input = if ltb (length input) n then none else some (take n input, drop n input)

-- The two bytes of the port behind an address.
abbrev pub read_port : (fqdn ip : List ℕ) → Option (List ℕ × List ℕ) → Option (AddrSpec × List ℕ)
read_port fqdn ip none = none
read_port fqdn ip (some (port, rest)) =
    some (record { fqdn = fqdn; ip = ip; port = get_be port }, rest)

abbrev pub with_ip : Option (List ℕ × List ℕ) → Option (AddrSpec × List ℕ)
with_ip none = none
with_ip (some (ip, rest)) = read_port [] ip (read_bytes 2 rest)

abbrev pub with_fqdn : Option (List ℕ × List ℕ) → Option (AddrSpec × List ℕ)
with_fqdn none = none
with_fqdn (some (fqdn, rest)) = read_port fqdn [] (read_bytes 2 rest)

abbrev pub read_fqdn : List ℕ → Option (AddrSpec × List ℕ)
read_fqdn [] = none
read_fqdn (len ∷ rest) = with_fqdn (read_bytes len rest)

abbrev pub read_addr_of_type : ℕ → List ℕ → Option (AddrSpec × List ℕ)
read_addr_of_type type rest =
    if type == 1
    then with_ip (read_bytes 4 rest)
    else if type == 4
    then with_ip (read_bytes 16 rest)
    else if type == 3
    then read_fqdn rest
    else none

unfoldable pub read_addr_spec : List ℕ → Option (AddrSpec × List ℕ)
read_addr_spec [] = none
read_addr_spec (type ∷ rest) = read_addr_of_type type rest

abbrev pub request_of : (command : ℕ) → Option (AddrSpec × List ℕ) → Option (Request × List ℕ)
request_of command none = none
request_of command (some (addr, rest)) =
    some (record { version = 5; command = command; dest_addr = addr }, rest)

unfoldable pub new_request : List ℕ → Option (Request × List ℕ)
new_request (version ∷ command ∷ reserved ∷ rest) =
    if version == 5 then request_of command (read_addr_spec rest) else none
new_request _ = none

-- `ip.To4()` and `ip.To16()`, `none` for `nil`.
unfoldable pub ip_to_4 : List ℕ → Option (List ℕ)
ip_to_4 ip =
    if length ip == 4
    then some ip
    else if (length ip == 16) && same_bytes (take 12 ip) mapped_prefix
    then some (drop 12 ip)
    else none

unfoldable pub ip_to_16 : List ℕ → Option (List ℕ)
ip_to_16 ip =
    if length ip == 4 then some (mapped_prefix ++ ip) else if length ip == 16 then some ip else none

abbrev pub format_reply : (resp type : ℕ) → (body : List ℕ) → (port : ℕ) → List ℕ
format_reply resp type body port = 5 ∷ resp ∷ 0 ∷ type ∷ (body ++ put_be 2 (port % 2 ^ 16))

abbrev pub ip_reply : ℕ → ℕ → Option (List ℕ) → Option (List ℕ) → Option (List ℕ)
ip_reply resp port (some v4) v6 = some (format_reply resp 1 v4 port)
ip_reply resp port none (some v6) = some (format_reply resp 4 v6 port)
ip_reply resp port none none = none

abbrev pub addr_reply : ℕ → AddrSpec → (fqdn : List ℕ) → Option (List ℕ)
addr_reply resp addr [] = ip_reply resp addr.port (ip_to_4 addr.ip) (ip_to_16 addr.ip)
addr_reply resp addr (c ∷ name) =
    some (format_reply resp 3 (length (c ∷ name) % 2 ^ 8 ∷ c ∷ name) addr.port)

-- The bytes that are written, `none` where the address cannot be formatted.
unfoldable pub send_reply : ℕ → Option AddrSpec → Option (List ℕ)
send_reply resp none = some (format_reply resp 1 (0 ∷ 0 ∷ 0 ∷ 0 ∷ []) 0)
send_reply resp (some addr) = addr_reply resp addr addr.fqdn

-- What `Address` gives the dialer.
pub data Target : Type 0 where
  by_ip by_name : (host : List ℕ) → (port : ℕ) → Target

abbrev pub address_from : (ip : List ℕ) → AddrSpec → Target
address_from [] addr = by_name addr.fqdn addr.port
address_from (b ∷ ip) addr = by_ip (b ∷ ip) addr.port

unfoldable pub address : AddrSpec → Target
address addr = address_from addr.ip addr

pub data Dialed : Type 0 where
  connects : (local_addr : AddrSpec) → Dialed
  refused network_unreachable fails : Dialed

-- What a request dials, and the reply to it.
pub record Handled : Type 0 where
  pub dialed : Option Target
  pub reply : Option (List ℕ)

abbrev pub dial_reply : Dialed → Option (List ℕ)
dial_reply (connects local_addr) = send_reply 0 (some local_addr)
dial_reply refused = send_reply 5 none
dial_reply network_unreachable = send_reply 3 none
dial_reply fails = send_reply 4 none

unfoldable pub connect_to : (Target → Dialed) → AddrSpec → Handled
connect_to dial addr = record {
  dialed = some (address addr);
  reply = dial_reply (dial (address addr));
}

unfoldable pub deny : AddrSpec → Handled
deny addr = record { dialed = none; reply = send_reply 2 (some addr) }

abbrev pub check_access : (Target → Dialed) → Policy → AddrSpec → Handled
check_access dial policy addr =
    if (allowed policy addr.ip addr.port).0 then connect_to dial addr else deny addr

abbrev pub with_resolved : (Target → Dialed) → Policy → AddrSpec → Option (List ℕ) → Handled
with_resolved dial policy addr none = deny addr
with_resolved dial policy addr (some ip) = check_access dial policy (record addr { ip = ip })

abbrev pub under_policy :
    (List ℕ → Option (List ℕ)) → (Target → Dialed) → Policy → AddrSpec → (ip : List ℕ) → Handled
under_policy resolve dial policy addr [] = with_resolved dial policy addr (resolve addr.fqdn)
under_policy resolve dial policy addr (b ∷ ip) = check_access dial policy addr

-- `resolve` is `net.ResolveIPAddr("ip", name)`, `none` on an error.
unfoldable pub handle_connect :
    Option Policy
    → (resolve : List ℕ → Option (List ℕ)) → (dial : Target → Dialed) → Request
    → Handled
handle_connect none resolve dial req = connect_to dial req.dest_addr
handle_connect (some policy) resolve dial req =
    under_policy resolve dial policy req.dest_addr req.dest_addr.ip

-- `Handle`; bind and associate are not supported.
unfoldable pub handle :
    Option Policy
    → (resolve : List ℕ → Option (List ℕ)) → (dial : Target → Dialed) → Request
    → Handled
handle policy resolve dial req =
    if req.command == 1
    then handle_connect policy resolve dial req
    else record { dialed = none; reply = send_reply 7 none }
