-- ===== src/Supervisor/Fallback.antt =====
-- supervisor/tunnel.go: when a connection changes its edge address (IpAddrFallback).
mod Tests
use shitflared.Prelude.{
  ℕ, zero, suc, ◌+◌, ◌%◌, ◌^◌, ◌≤◌, ◌<◌, ◌≡◌, refl, sym, ◌∙◌, ap, Bool, true, false, List, [], ◌∷◌,
  Option, none, some, arith, leb, if◌then◌else◌, lookup, insert, nat_eq, lookup-insert, beq_refl,
  ◌==◌, Bool-cases, inl, inr, ◌≢◌,
}

-- The types of error that the switch tells apart.
pub data ServeError : Type 0 where
  no_error dup_conn_register idle_timeout dial_error edge_quic_dial_error other_error : ServeError

pub record IpAddrFallback : Type 0 where
  pub retries_by_conn_index : List (ℕ × ℕ)
  pub max_retries : ℕ  -- uint8

unfoldable pub new_ip_addr_fallback : ℕ → IpAddrFallback
new_ip_addr_fallback max = record { retries_by_conn_index = []; max_retries = max }

-- A key that is missing reads as 0.
abbrev pub or_zero : Option ℕ → ℕ
or_zero none = 0
or_zero (some n) = n

unfoldable pub retries_of : IpAddrFallback → ℕ → ℕ
retries_of f conn = or_zero (lookup conn f.retries_by_conn_index)

-- Whether a new address is needed, and the connectivity error with whether the retries are used up.
abbrev pub Verdict : Type 0
Verdict = Bool × Option Bool

unfoldable pub dial_failed : IpAddrFallback → ℕ → IpAddrFallback × Verdict
dial_failed f conn =
    if leb f.max_retries (retries_of f conn)
    then (
      record f { retries_by_conn_index = insert conn 0 f.retries_by_conn_index },
      (true, some true),
    )
    else (
      record f {
        retries_by_conn_index =
            insert conn ((retries_of f conn + 1) % 2 ^ 8) f.retries_by_conn_index;
      },
      (true, some false),
    )

unfoldable pub should_get_new_address : IpAddrFallback → ℕ → ServeError → IpAddrFallback × Verdict
should_get_new_address f conn dup_conn_register = (f, (true, none))
should_get_new_address f conn idle_timeout = (f, (true, none))
should_get_new_address f conn dial_error = dial_failed f conn
should_get_new_address f conn edge_quic_dial_error = dial_failed f conn
should_get_new_address f conn no_error = (f, (false, none))
should_get_new_address f conn other_error = (f, (false, none))

-- `n` failures to dial of one connection, the verdict of the last.
unfoldable pub dial_failures : ℕ → IpAddrFallback → ℕ → IpAddrFallback
dial_failures zero f conn = f
dial_failures (suc n) f conn = dial_failures n (should_get_new_address f conn dial_error).0 conn

retries-insert :
    (f : IpAddrFallback) (conn n : ℕ)
    → retries_of (record f { retries_by_conn_index = insert conn n f.retries_by_conn_index }) conn
      ≡ n
unfolding retries_of
retries-insert f conn n =
    ap or_zero (lookup-insert conn conn n f.retries_by_conn_index) ∙ ground (arith, beq_refl conn)

retries-dial_failed :
    (f : IpAddrFallback) (conn : ℕ)
    → retries_of f conn < f.max_retries
    → f.max_retries < 2 ^ 8
    → (retries_of (dial_failed f conn).0 conn ≡ retries_of f conn + 1)
      × ((dial_failed f conn).0.max_retries ≡ f.max_retries)
unfolding dial_failed
retries-dial_failed f conn room small = elim (Bool-cases (leb f.max_retries (retries_of f conn))) [
  | inl full ↦ absurd (ground arith)
  | inr free ↦ rw free (retries-insert f conn ((retries_of f conn + 1) % 2 ^ 8) ∙ omega arith, refl)
]

pub verdict :
    (f : IpAddrFallback) (conn : ℕ)
    → (dial_failed f conn).1 ≡ (true, some (leb f.max_retries (retries_of f conn)))
unfolding dial_failed
verdict f conn = elim (Bool-cases (leb f.max_retries (retries_of f conn))) [
  | inl full ↦ rw full refl
  | inr free ↦ rw free refl
]

dial_failures-counts :
    (n : ℕ) (f : IpAddrFallback) (conn : ℕ)
    → retries_of f conn + n ≤ f.max_retries
    → f.max_retries < 2 ^ 8
    → (retries_of (dial_failures n f conn) conn ≡ retries_of f conn + n)
      × ((dial_failures n f conn).max_retries ≡ f.max_retries)
unfolding dial_failures should_get_new_address
dial_failures-counts zero f conn h small = (omega arith, refl)
dial_failures-counts (suc n) f conn h small =
    let first = retries-dial_failed f conn (omega arith) small in
    let rest =
      dial_failures-counts n (dial_failed f conn).0 conn (omega (arith, first.0, first.1))
        (omega (arith, first.1)) in
    (omega (arith, rest.0, first.0), rest.1 ∙ first.1)

-- A connection that has failed to dial `n` times in a row, counted from 0, is told to change its
-- address at the next failure, and that the retries are used up if and only if `n` is the maximum.
pub dial_failures_used_up :
    (n : ℕ) (f : IpAddrFallback) (conn : ℕ)
    → retries_of f conn ≡ 0
    → n ≤ f.max_retries
    → f.max_retries < 2 ^ 8
    → (should_get_new_address (dial_failures n f conn) conn dial_error).1
      ≡ (true, some (leb f.max_retries n))
unfolding should_get_new_address
dial_failures_used_up n f conn start h small =
    let counted = dial_failures-counts n f conn (omega arith) small in
    verdict (dial_failures n f conn) conn
    ∙ ap (λ b. (true, some b))
        (ap (λ m. leb m (retries_of (dial_failures n f conn) conn)) counted.1
          ∙ ap (leb f.max_retries) (omega (arith, counted.0)))
