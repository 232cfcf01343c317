-- ===== src/Server.antt =====
-- cmd/cloudflared/main.go: the HTTP server of quick tunnels. Each handler is cut into the steps that
-- it takes under a lock; Server/Steps interleaves them. Logs and JSON encoding are left out.
pub mod Steps
pub mod Frame
pub mod Within
pub mod Limit
pub mod Exhaust
pub mod Request
pub mod Listing
mod Tests
use shitflared.Prelude.Text.{
  Text, codes, same_text, has_prefix, is_empty, same_text_iff, is_empty_iff,
}
use shitflared.Prelude.{
  ℕ, zero, suc, ◌+◌, Bool, true, false, not, ◌&&◌, ◌||◌, List, [], ◌∷◌, ◌++◌, map, Option, none,
  some, length, leb, ltb, ◌==◌, if◌then◌else◌, lookup, insert, remove, nat_eq,
}

-- `strings.ToLower`: beyond ASCII the only letter that becomes one of "quic" or "http2" is U+0130,
-- and no other can make a protocol valid.
unfoldable pub to_lower : ℕ → ℕ
to_lower c = if leb 65 c && leb c 90 then c + 32 else if c == 304 then 105 else c

pub record QuickTunnelRequest : Type 0 where
  pub host : Text
  pub port : ℕ  -- a negative port is refused as 0 is
  pub protocol : Text
  pub proxy : Text

-- The part of `appConfig` that the handlers read; a negative limit acts as 0 does.
pub record AppConfig : Type 0 where
  pub default_protocol : Text
  pub max_tunnels : ℕ

pub data ApiError : Type 0 where
  host_required port_out_of_range bad_protocol bad_proxy : ApiError
  method_not_allowed cannot_read_body invalid_json missing_id : ApiError
  max_tunnels_reached no_executable_path start_failed timed_out tunnel_not_found : ApiError

unfoldable pub known_protocol : Text → Bool
known_protocol p = is_empty p || same_text p (codes "quic") || same_text p (codes "http2")

unfoldable pub known_proxy : Text → Bool
known_proxy p =
    has_prefix p (codes "http://")
    || has_prefix p (codes "https://")
    || has_prefix p (codes "socks5://")
    || has_prefix p (codes "socks5h://")

unfoldable pub validate : QuickTunnelRequest → Option ApiError
validate r =
    if is_empty r.host
    then some host_required
    else if leb r.port 0 || ltb 65535 r.port
    then some port_out_of_range
    else if not (known_protocol (map to_lower r.protocol))
    then some bad_protocol
    else if not (is_empty r.proxy) && not (known_proxy r.proxy)
    then some bad_proxy
    else none

unfoldable pub choose_protocol : AppConfig → QuickTunnelRequest → Text
choose_protocol cfg r =
    let asked = map to_lower r.protocol in
    let protocol = if is_empty asked then cfg.default_protocol else asked in
    if not (is_empty r.proxy) && same_text protocol (codes "quic") then codes "http2" else protocol

-- What the environment of the worker gains.
unfoldable pub proxy_env : Text → List (Text × Text)
proxy_env [] = []
proxy_env (c ∷ rest) =
    (codes "ALL_PROXY", c ∷ rest)
    ∷ (codes "NO_PROXY", codes "127.0.0.1,localhost,::1")
    ∷ (if has_prefix (c ∷ rest) (codes "socks5")
        then []
        else (codes "HTTP_PROXY", c ∷ rest) ∷ (codes "HTTPS_PROXY", c ∷ rest) ∷ [])

pub data TunnelStatus : Type 0 where
  starting started stopped failed timeout : TunnelStatus

-- `tunnelHandle`; `exited` is whether `done` is closed, `pid` is 0 before the process starts, and
-- `failure` is whether `err` is set.
pub record Handle : Type 0 where
  pub id : ℕ
  pub host : Text
  pub port : ℕ
  pub proxy : Text
  pub protocol : Text
  pub status : TunnelStatus
  pub url : Text
  pub failure : Bool
  pub pid : ℕ
  pub started_at : ℕ
  pub exited : Bool

-- The fields of `tunnelSnapshot` are those of the handle that it is taken from.
pub data Response : Type 0 where
  error_reply : ℕ → ApiError → Response
  snapshot_reply : ℕ → Handle → Response
  list_reply : List Handle → Response
  no_content : Response

-- A request's method and body, as far as they are read before JSON decoding has a value.
pub data Body {ℓ} (A : Type ℓ) : Type ℓ where
  not_post unreadable undecodable : Body A
  decoded : A → Body A

-- `running` takes a tunnel's id to the pointer of its handle in `heap`; `hub` has the channel of each
-- start handler that waits, with the URL that it holds; `admitted` counts the start handlers that
-- passed the test of the limit and have not added their tunnel yet.
pub record Server : Type 0 where
  pub config : AppConfig
  pub running : List (ℕ × ℕ)
  pub heap : List (ℕ × Handle)
  pub hub : List (ℕ × Option Text)
  pub admitted : ℕ

unfoldable pub new_server : AppConfig → Server
new_server cfg = record { config = cfg; running = []; heap = []; hub = []; admitted = 0 }

-- `h.mu.Lock(); ...; h.mu.Unlock()` on the handle at a pointer.
unfoldable pub update_handle : Server → ℕ → (Handle → Handle) → Server
update_handle s p f = elim (lookup p s.heap) [
  | none ↦ s
  | some h ↦ record s { heap = insert p (f h) s.heap }
]

-- `handleStartQuickTunnel` up to the test of the limit: `none` admits the request.
unfoldable pub check_start : Server → Body QuickTunnelRequest → Option Response
check_start s not_post = some (error_reply 405 method_not_allowed)
check_start s unreadable = some (error_reply 400 cannot_read_body)
check_start s undecodable = some (error_reply 400 invalid_json)
check_start s (decoded r) = elim (validate r) [
  | some e ↦ some (error_reply 400 e)
  | none ↦
      if leb s.config.max_tunnels (length s.running)
      then some (error_reply 503 max_tunnels_reached)
      else none
]
