-- ===== src/Server/Request.antt =====
-- cmd/cloudflared/main.go: which requests are valid, and the protocol that a worker gets.
use shitflared.Prelude.Text.{
  Text, codes, same_text, is_empty, same_text_iff, is_empty_iff, has_prefix_iff,
}
use shitflared.Prelude.{
  ℕ, ◌+◌, ◌∷◌, ◌++◌, ap, ◌∙◌, All, ◌≤◌, ◌≡◌, ◌≢◌, ◌↔◌, ◌⊎◌, refl, Bool, true, not, ◌&&◌, [], map,
  none, arith, if◌then◌else◌, Bool-cases, inl, inr,
}
use shitflared.Server.{
  to_lower, QuickTunnelRequest, AppConfig, known_protocol, known_proxy, validate, choose_protocol,
}

-- `a` is `b`, or its capital letter; a capital I may have a dot.
abbrev pub SameLetter : ℕ → ℕ → Type 0
SameLetter a b = (a ≡ b) ⊎ (((65 ≤ a) × ((a ≤ 90) × (a + 32 ≡ b))) ⊎ ((a ≡ 304) × (b ≡ 105)))

abbrev pub Spells : Text → Text → Type 0
Spells [] [] = Unit
Spells (a ∷ s) (b ∷ t) = SameLetter a b × Spells s t
Spells _ _ = ⊥

-- `s` is `p` with a text behind it.
abbrev pub GoesOn : Text → Text → Type 0
GoesOn p s = (rest : Text) × (s ≡ p ++ rest)

-- What a valid request is, said without the order of the tests.
pub record IsValid (r : QuickTunnelRequest) : Type 0 where
  pub host : r.host ≢ []
  pub port_low : 1 ≤ r.port
  pub port_high : r.port ≤ 65535
  pub protocol :
      (r.protocol ≡ []) ⊎ (Spells r.protocol (codes "quic") ⊎ Spells r.protocol (codes "http2"))
  pub proxy :
      (r.proxy ≡ [])
      ⊎ (GoesOn (codes "http://") r.proxy
          ⊎ (GoesOn (codes "https://") r.proxy
              ⊎ (GoesOn (codes "socks5://") r.proxy ⊎ GoesOn (codes "socks5h://") r.proxy)))

abbrev IsSmall : ℕ → Type 0
IsSmall b = (b ≤ 64) ⊎ ((91 ≤ b) × (b ≤ 303))

SameLetter-to_lower : (a b : ℕ) → IsSmall b → (to_lower a ≡ b) ↔ SameLetter a b
unfolding to_lower
SameLetter-to_lower a b small = (ground arith, ground arith)

Spells-to_lower : (s t : Text) → All IsSmall t → (map to_lower s ≡ t) ↔ Spells s t
Spells-to_lower [] [] small = (λ h. tt, λ h. refl)
Spells-to_lower [] (b ∷ t) small = (λ h. absurd cc, λ h. absurd h)
Spells-to_lower (a ∷ s) [] small = (λ h. absurd cc, λ h. absurd h)
Spells-to_lower (a ∷ s) (b ∷ t) small = (
  λ h. ((SameLetter-to_lower a b small.0).0 cc, (Spells-to_lower s t small.1).0 cc),
  λ h.
      let same = (SameLetter-to_lower a b small.0).1 h.0 in
      let tail = (Spells-to_lower s t small.1).1 h.1 in
      ap (λ x. x ∷ map to_lower s) same ∙ ap (λ x. b ∷ x) tail,
)

Spells-quic_iff : (p : Text) → (map to_lower p ≡ codes "quic") ↔ Spells p (codes "quic")
Spells-quic_iff p =
    Spells-to_lower p (codes "quic") (omega arith, (omega arith, (omega arith, (omega arith, tt))))

Spells-http2_iff : (p : Text) → (map to_lower p ≡ codes "http2") ↔ Spells p (codes "http2")
Spells-http2_iff p =
    Spells-to_lower p (codes "http2")
      (omega arith, (omega arith, (omega arith, (omega arith, (omega arith, tt)))))

is_empty-map : (s : Text) → is_empty (map to_lower s) ≡ is_empty s
is_empty-map [] = refl
is_empty-map (c ∷ s) = refl

known_protocol_iff :
    (p : Text)
    → (known_protocol (map to_lower p) ≡ true)
      ↔ ((p ≡ []) ⊎ (Spells p (codes "quic") ⊎ Spells p (codes "http2")))
unfolding known_protocol
known_protocol_iff p = ground (
  arith,
  is_empty-map p,
  is_empty_iff p,
  same_text_iff (map to_lower p) (codes "quic"),
  same_text_iff (map to_lower p) (codes "http2"),
  Spells-quic_iff p,
  Spells-http2_iff p,
)

known_proxy_iff :
    (p : Text)
    → (known_proxy p ≡ true) ↔ (
        GoesOn (codes "http://") p
        ⊎ (GoesOn (codes "https://") p
            ⊎ (GoesOn (codes "socks5://") p ⊎ GoesOn (codes "socks5h://") p)))
unfolding known_proxy
known_proxy_iff p = ground (
  arith,
  has_prefix_iff p (codes "http://"),
  has_prefix_iff p (codes "https://"),
  has_prefix_iff p (codes "socks5://"),
  has_prefix_iff p (codes "socks5h://"),
)

-- A request passes validation if and only if it has a host, a port from 1 to 65535, a protocol that
-- is empty or spells "quic" or "http2" with small or capital letters (a capital I with a dot
-- included), and a proxy that is empty or goes on from "http://", "https://", "socks5://" or
-- "socks5h://".
pub validate_iff : (r : QuickTunnelRequest) → (validate r ≡ none) ↔ IsValid r
unfolding validate
validate_iff r = (passed, accepted)
  where
    passed : validate r ≡ none → IsValid r
    passed h = record {
      host = λ e. ground (arith, h, is_empty_iff r.host, e);
      port_low = ground (arith, h);
      port_high = ground (arith, h);
      protocol = (known_protocol_iff r.protocol).0 (ground (arith, h));
      proxy = ground (arith, h, is_empty_iff r.proxy, known_proxy_iff r.proxy);
    }

    accepted : IsValid r → validate r ≡ none
    accepted v = ground (
      arith,
      is_empty_iff r.host,
      v.host,
      v.port_low,
      v.port_high,
      (known_protocol_iff r.protocol).1 v.protocol,
      is_empty_iff r.proxy,
      known_proxy_iff r.proxy,
      v.proxy,
    )

-- A request without a proxy gives its worker the protocol it asks for in lower case, or the default
-- where it asks for none; a worker behind a proxy never gets "quic".
pub choose_protocol_cases :
    (cfg : AppConfig) (r : QuickTunnelRequest)
    → ((r.proxy ≡ []) → (r.protocol ≢ []) → choose_protocol cfg r ≡ map to_lower r.protocol)
      × (((r.proxy ≡ []) → (r.protocol ≡ []) → choose_protocol cfg r ≡ cfg.default_protocol)
          × ((r.proxy ≢ []) → choose_protocol cfg r ≢ codes "quic"))
unfolding choose_protocol
choose_protocol_cases cfg r = (asked, (default, proxied))
  where
    asked : (r.proxy ≡ []) → (r.protocol ≢ []) → choose_protocol cfg r ≡ map to_lower r.protocol
    asked p q =
        ground (arith, is_empty_iff r.proxy, is_empty-map r.protocol, is_empty_iff r.protocol)

    default : (r.proxy ≡ []) → (r.protocol ≡ []) → choose_protocol cfg r ≡ cfg.default_protocol
    default p q =
        ground (arith, is_empty_iff r.proxy, is_empty-map r.protocol, is_empty_iff r.protocol)

    http2 : codes "http2" ≢ codes "quic"
    http2 h = cc

    never :
        (b : Bool) (p : Text)
        → b ≡ true
        → (if b && same_text p (codes "quic") then codes "http2" else p) ≢ codes "quic"
    never b p hb = elim (Bool-cases (same_text p (codes "quic"))) [
      | inl same ↦ rw (hb, same) http2
      | inr other ↦ rw (hb, other) (λ e. ground (arith, same_text_iff p (codes "quic")))
    ]

    proxied : (r.proxy ≢ []) → choose_protocol cfg r ≢ codes "quic"
    proxied p =
        never (not (is_empty r.proxy))
          (if is_empty (map to_lower r.protocol)
            then cfg.default_protocol
            else map to_lower r.protocol)
          (ground (arith, is_empty_iff r.proxy))
