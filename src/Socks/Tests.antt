-- ===== src/Socks/Tests.antt =====
-- Runs of SOCKS requests.
use shitflared.Prelude.{
  ℕ, ◌≡◌, refl, arith, true, false, List, [], ◌∷◌, ◌++◌, Option, some, drop, inl,
}
use shitflared.Prelude.Text.{codes}
use shitflared.Prelude.Bytes.{get_be}
use shitflared.IpAccess.{Policy, allowed, decides, contains, to_4}
use shitflared.Socks.{
  Request, Target, by_ip, by_name, Dialed, fails, new_request, read_addr_spec, read_bytes,
  send_reply, handle, handle_connect, connect_to, deny, address,
}
use shitflared.Socks.Access.{Permits, handle-Permits, empty_name_passes}
use shitflared.Socks.RoundTrip.{named, spec_of, read_addr_spec-send_reply}

-- Everything but 127.0.0.0/8.
abbrev no_loopback : Policy
no_loopback = record {
  default_allow = true;
  rules =
      record {
        ip_net = some (record { ip = 127 ∷ 0 ∷ 0 ∷ 0 ∷ []; mask = 255 ∷ 0 ∷ 0 ∷ 0 ∷ [] });
        ports = [];
        allow = false;
      }
      ∷ [];
}

abbrev resolve : List ℕ → Option (List ℕ)
resolve [] = some []
resolve (c ∷ name) = some (9 ∷ 9 ∷ 9 ∷ 9 ∷ [])

abbrev never : Target → Dialed
never t = fails

abbrev by_host : Request
by_host = record {
  version = 5;
  command = 1;
  dest_addr = record { fqdn = codes "a.example"; ip = []; port = 80 };
}

by_host-dials :
    (handle (some no_loopback) resolve never by_host).dialed ≡ some (by_ip (9 ∷ 9 ∷ 9 ∷ 9 ∷ []) 80)
unfolding handle handle_connect connect_to deny address allowed decides contains to_4
by_host-dials = refl

resolve_finds : (name : List ℕ) → resolve name ≡ some [] → name ≡ []
resolve_finds [] h = refl
resolve_finds (c ∷ name) h = absurd cc

handle-Permits_example : Permits no_loopback (by_ip (9 ∷ 9 ∷ 9 ∷ 9 ∷ []) 80)
handle-Permits_example =
    handle-Permits no_loopback resolve never by_host (by_ip (9 ∷ 9 ∷ 9 ∷ 9 ∷ []) 80) resolve_finds
      by_host-dials

empty_name_passes_example :
    (handle (some no_loopback) resolve never (record {
      version = 5;
      command = 1;
      dest_addr = record { fqdn = []; ip = []; port = 80 };
    })).dialed
    ≡ some (by_name [] 80)
empty_name_passes_example =
    empty_name_passes no_loopback resolve never 80 refl
      ((record { ip = 127 ∷ 0 ∷ 0 ∷ 0 ∷ []; mask = 255 ∷ 0 ∷ 0 ∷ 0 ∷ [] }, (refl, inl refl)), tt)
      refl

read_addr_spec-send_reply_example :
    (msg : List ℕ) × ((send_reply 0 (some (spec_of (named 97 (98 ∷ [])) 443)) ≡ some msg)
      × (read_addr_spec (drop 3 msg ++ (7 ∷ [])) ≡ some (spec_of (named 97 (98 ∷ [])) 443, 7 ∷ [])))
read_addr_spec-send_reply_example =
    read_addr_spec-send_reply 0 (named 97 (98 ∷ [])) 443 (7 ∷ []) (omega arith) (omega arith)

-- A request for 1.2.3.4:80, as a client writes it.
reads_request :
    new_request (5 ∷ 1 ∷ 0 ∷ 1 ∷ 1 ∷ 2 ∷ 3 ∷ 4 ∷ 0 ∷ 80 ∷ 22 ∷ [])
    ≡ some (
      record {
        version = 5;
        command = 1;
        dest_addr = record { fqdn = []; ip = 1 ∷ 2 ∷ 3 ∷ 4 ∷ []; port = 80 };
      },
      22 ∷ [],
    )
unfolding new_request read_addr_spec read_bytes get_be
reads_request = refl
