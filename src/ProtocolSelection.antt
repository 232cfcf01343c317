-- ===== src/ProtocolSelection.antt =====
-- connection/protocol.go and edgediscovery/protocol.go: which protocol the connections start with. The
-- TXT record is an argument, `none` where it cannot be had, and so is the time.
pub mod Percentages
pub mod Stable
mod Tests
use shitflared.Prelude.{
  ℕ, zero, suc, ◌+◌, ◌*◌, ◌/◌, ◌%◌, ◌^◌, Bool, true, false, ◌&&◌, List, [], ◌∷◌, Option, none, some,
  map, leb, ltb, ◌==◌, if◌then◌else◌,
}
use shitflared.Prelude.Text.{Text, codes, same_text}
use shitflared.Ingress.Rules.{ℤ, pos, negsuc}
use shitflared.Supervisor.Protocol.{Protocol, http2, quic, fallback_of}

-- The letters with a lower case in ASCII; the others do not make a text one in ASCII.
abbrev lower : ℕ → ℕ
lower c =
    if leb 65 c && leb c 90 then c + 32 else if c == 304 then 105 else if c == 8490 then 107 else c

-- `strings.ToLower`.
abbrev pub to_lower : Text → Text
to_lower text = map lower text

pub record ProtocolPercent : Type 0 where
  pub protocol : Text
  pub percentage : ℤ

-- What `fetchFunc` returns.
abbrev pub Fetched : Type 0
Fetched = Option (List ProtocolPercent)

unfoldable pub get_percentage : List ProtocolPercent → Text → ℤ
get_percentage [] name = pos 0
get_percentage (p ∷ rest) name =
    let later = get_percentage rest name in
    if same_text (to_lower p.protocol) (to_lower name) then p.percentage else later

abbrev pub protocol_name : Protocol → Text
protocol_name http2 = codes "http2"
protocol_name quic = codes "quic"

abbrev pub exceeds : ℤ → ℕ → Bool
exceeds (pos n) threshold = ltb threshold n
exceeds (negsuc n) threshold = false

abbrev pub protocol_list : List Protocol
protocol_list = quic ∷ http2 ∷ []

-- The loop over the pool; `default` is the first of the pool, and `none` the panic where there is none.
unfoldable pub pick_protocol :
    List Protocol → (default : Option Protocol) → List ProtocolPercent → ℕ → Option Protocol
pick_protocol [] default percents threshold = default
pick_protocol (p ∷ pool) default percents threshold =
    let later = pick_protocol pool default percents threshold in
    if exceeds (get_percentage percents (protocol_name p)) threshold then some p else later

pub data Picked : Type 0 where
  fetch_failed panics : Picked
  picked : Protocol → Picked

abbrev first_of : List Protocol → Option Protocol
first_of [] = none
first_of (p ∷ pool) = some p

abbrev picked_or_panic : Option Protocol → Picked
picked_or_panic none = panics
picked_or_panic (some p) = picked p

unfoldable pub get_protocol : List Protocol → Fetched → ℕ → Picked
get_protocol pool none threshold = fetch_failed
get_protocol pool (some percents) threshold =
    picked_or_panic (pick_protocol pool (first_of pool) percents threshold)

-- The exclusive or of the lowest `bits` bits.
abbrev xor : (bits : ℕ) → ℕ → ℕ → ℕ
xor zero a b = 0
xor (suc bits) a b = (a + b) % 2 + 2 * xor bits (a / 2) (b / 2)

-- The 32-bit FNV-1a hash, from a state.
abbrev fnv32a : ℕ → Text → ℕ
fnv32a state [] = state
fnv32a state (byte ∷ rest) = fnv32a ((xor 32 state byte * 16777619) % 2 ^ 32) rest

unfoldable pub switch_threshold : Text → ℕ
switch_threshold account_tag = fnv32a 2166136261 account_tag % 100

pub record Remote : Type 0 where
  pub current : Protocol
  pub protocol_pool : List Protocol
  pub switch_threshold : ℕ
  pub refresh_after : ℕ
  pub ttl : ℕ

unfoldable pub new_remote : Protocol → List Protocol → (threshold ttl now : ℕ) → Remote
new_remote current pool threshold ttl now = record {
  current = current;
  protocol_pool = pool;
  switch_threshold = threshold;
  refresh_after = now + ttl;
  ttl = ttl;
}

abbrev pub refreshed : Remote → (now : ℕ) → Picked → Remote × Option Protocol
refreshed r now fetch_failed = (r, some r.current)
refreshed r now panics = (r, none)
refreshed r now (picked p) = (record r { current = p; refresh_after = now + r.ttl }, some p)

-- `Current` of the remote selector; `none` is a panic.
unfoldable pub remote_current : Remote → (now : ℕ) → Fetched → Remote × Option Protocol
remote_current r now fetched =
    if ltb now r.refresh_after
    then (r, some r.current)
    else refreshed r now (get_protocol r.protocol_pool fetched r.switch_threshold)

-- The implementations of `ProtocolSelector`.
pub data ProtocolSelector : Type 0 where
  static_selector default_selector : Protocol → ProtocolSelector
  remote_selector : Remote → ProtocolSelector

unfoldable pub current_of :
    ProtocolSelector → (now : ℕ) → Fetched → ProtocolSelector × Option Protocol
current_of (static_selector p) now fetched = (static_selector p, some p)
current_of (default_selector p) now fetched = (default_selector p, some p)
current_of (remote_selector r) now fetched =
    let after = remote_current r now fetched in (remote_selector after.0, after.1)

unfoldable pub fallback : ProtocolSelector → Option Protocol
fallback (static_selector p) = none
fallback (default_selector p) = fallback_of p
fallback (remote_selector r) = fallback_of r.current

-- The zero value of `Protocol` stands where the fetch failed.
abbrev pub fetched_protocol : Picked → Protocol
fetched_protocol fetch_failed = http2
fetched_protocol panics = http2
fetched_protocol (picked p) = p

-- `NewProtocolSelector`, `none` where the flag is not known. Its pool is not empty, so it does not
-- panic.
unfoldable pub new_protocol_selector :
    (flag account_tag : Text) (token_provided : Bool)
    → Fetched
    → (ttl now : ℕ) → Option ProtocolSelector
new_protocol_selector flag account_tag token_provided fetched ttl now =
    let threshold = switch_threshold account_tag in
    let first = fetched_protocol (get_protocol protocol_list fetched threshold) in
    if same_text flag (codes "h2mux")
    then some (static_selector http2)
    else if same_text flag (codes "quic")
    then some (static_selector quic)
    else if same_text flag (codes "http2")
    then some (static_selector http2)
    else if same_text flag (codes "auto")
    then some (
        if token_provided
        then default_selector quic
        else remote_selector (new_remote first protocol_list threshold ttl now))
    else none
