-- ===== src/EdgeDiscovery/Edge/History.antt =====
-- What the calls return, and every history of calls.
use shitflared.Prelude.{
  ℕ, ◌≤◌, ◌≡◌, ◌≢◌, ◌⊎◌, inl, inr, refl, ◌∙◌, ap, Bool, false, List, [], ◌∷◌, Option, none, some,
  arith, lookup, insert, lookup-insert, beq_refl, Bool-cases, Option-cases,
}
use shitflared.EdgeDiscovery.AddrSet.{
  EdgeAddr, same_addr, same_addr_iff, addr_eq, unused, in_use, is_addr, AddrSet,
}
use shitflared.EdgeDiscovery.AddrSet.Counts.{uses, uses-insert}
use shitflared.EdgeDiscovery.Regions.{Regions, regions_addr_used_by}
use shitflared.EdgeDiscovery.Regions.Flat.{
  total, regions_addr_used_by-found, regions_addr_used_by-none, Takes, get_unused_addr-Takes,
}
use shitflared.EdgeDiscovery.Edge.{Chance, get_addr, get_different_addr, edge_give_back}
use shitflared.EdgeDiscovery.Edge.Invariant.{
  Inv, get_addr-Inv, get_different_addr_steps, get_different_addr-Inv, edge_give_back-Inv,
}

pub data Call : Type 0 where
  gets : Chance → ℕ → Call
  changes : Chance → ℕ → Bool → ℕ → Call
  returns : EdgeAddr → Bool → ℕ → Call

unfoldable pub step : Regions → Call → Regions
step rs (gets c conn) = (get_addr c rs conn).0
step rs (changes c conn err now) = (get_different_addr c rs conn err now).0
step rs (returns a err now) = (edge_give_back rs a err now).0

unfoldable pub run : Regions → List Call → Regions
run rs [] = rs
run rs (c ∷ cs) = run (step rs c) cs

step-Inv : (rs : Regions) (c : Call) → Inv (total rs) → Inv (total (step rs c))
unfolding step
step-Inv rs (gets c conn) v = get_addr-Inv c rs conn v
step-Inv rs (changes c conn err now) v = get_different_addr-Inv c rs conn err now v
step-Inv rs (returns a err now) v = edge_give_back-Inv rs a err now v

-- From an edge in which the addresses are distinct and every connection uses at most one, this holds
-- after every history of calls, whatever the random choices and however addresses are given back.
pub run-Inv : (rs : Regions) (cs : List Call) → Inv (total rs) → Inv (total (run rs cs))
unfolding run
run-Inv rs [] v = v
run-Inv rs (c ∷ cs) v = run-Inv (step rs c) cs (step-Inv rs c v)

taken_lookup :
    (conn : ℕ) (ex : Option EdgeAddr) (before after : AddrSet) (addr : Option EdgeAddr)
    (a : EdgeAddr)
    → Takes conn ex before after addr
    → addr ≡ some a
    → (lookup a after ≡ some (in_use conn))
      × (lookup a before ≡ some unused)
      × (is_addr ex a ≡ false)
taken_lookup conn ex before after addr a (inl (e, same)) h = absurd (cc)
taken_lookup conn ex before after addr a (inr (b, e, free, other, f)) h =
    let same : b ≡ a = cc in
    rw (← same) (rw f (lookup-insert b b (in_use conn) before ∙ rw (beq_refl b) refl), free, other)

-- The address that `GetAddr` returns is in use by the connection afterwards. It was free before, or
-- it is the one that the connection had, and then nothing changes.
pub get_addr_gives :
    (c : Chance) (rs : Regions) (conn : ℕ) (a : EdgeAddr)
    → Inv (total rs)
    → (get_addr c rs conn).1 ≡ some a
    → (lookup a (total (get_addr c rs conn).0) ≡ some (in_use conn))
      × ((lookup a (total rs) ≡ some unused)
          ⊎ ((lookup a (total rs) ≡ some (in_use conn)) × ((get_addr c rs conn).0 ≡ rs)))
unfolding get_addr
get_addr_gives c rs conn a v h = elim (Option-cases (regions_addr_used_by c.held rs conn)) [
  | inr (b, e) ↦
      let same : b ≡ a = cc (rw (e, get_addr) at h) in
      let held = regions_addr_used_by-found c.held rs conn v.distinct e in
      rw (e, get_addr) (rw (← same) (held, inr (held, refl)))
  | inl e ↦
      let taken =
        taken_lookup conn none (total rs) _ _ a
          (get_unused_addr-Takes c.free c.coin rs none conn v.distinct) (rw (e, get_addr) at h) in
      rw (e, get_addr) (taken.0, inl taken.1)
]

held_uses :
    (conn : ℕ) (a : EdgeAddr) (set : AddrSet)
    → lookup a set ≡ some (in_use conn)
    → 1 ≤ uses conn set
held_uses conn a set h = ground (arith, uses-insert conn a unused (in_use conn) set h)

held_unique :
    (conn : ℕ) (a b : EdgeAddr) (set : AddrSet)
    → uses conn set ≤ 1
    → lookup a set ≡ some (in_use conn)
    → lookup b set ≡ some (in_use conn)
    → a ≡ b
held_unique conn a b set most ha hb = elim (Bool-cases (same_addr a b)) [
  | inl same ↦ (same_addr_iff a b).0 same
  | inr other ↦
      let still : lookup b (insert a unused set) ≡ some (in_use conn) =
        lookup-insert a b unused set ∙ rw other hb in
      absurd (
        ground (
          arith,
          uses-insert conn a unused (in_use conn) set ha,
          held_uses conn b (insert a unused set) still,
        ))
]

-- What a range for the connection's address finds, if it uses one.
pub finds_held :
    (choice : ℕ) (rs : Regions) (conn : ℕ) (a : EdgeAddr)
    → Inv (total rs)
    → lookup a (total rs) ≡ some (in_use conn)
    → regions_addr_used_by choice rs conn ≡ some a
finds_held choice rs conn a v h = elim (Option-cases (regions_addr_used_by choice rs conn)) [
  | inl e ↦
      absurd
        (omega (arith, regions_addr_used_by-none choice rs conn e, held_uses conn a (total rs) h))
  | inr (b, e) ↦
      e
      ∙ ap some (
          held_unique conn b a (total rs) (v.one_each conn)
            (regions_addr_used_by-found choice rs conn v.distinct e) h)
]

pub get_addr_held :
    (c : Chance) (rs : Regions) (conn : ℕ) (a : EdgeAddr)
    → regions_addr_used_by c.held rs conn ≡ some a
    → get_addr c rs conn ≡ (rs, some a)
unfolding get_addr
get_addr_held c rs conn a e = rw (e, get_addr) refl

excluded : (a : EdgeAddr) (ex : Option EdgeAddr) → ex ≡ some a → is_addr ex a ≢ false
excluded a none e h = cc
excluded a (some b) e h = let same : b ≡ a = cc in absurd (cc ((same_addr_iff b a).1 same, h))

-- A connection that asks again gets the same address again, and nothing changes, whatever the random
-- choices of the two calls.
pub get_addr_again :
    (c c' : Chance) (rs : Regions) (conn : ℕ) (a : EdgeAddr)
    → Inv (total rs)
    → (get_addr c rs conn).1 ≡ some a
    → let rs' = (get_addr c rs conn).0 in get_addr c' rs' conn ≡ (rs', some a)
get_addr_again c c' rs conn a v h =
    let rs' : Regions = (get_addr c rs conn).0 in
    let found =
      finds_held c'.held rs' conn a (get_addr-Inv c rs conn v) (get_addr_gives c rs conn a v h).0 in
    get_addr_held c' rs' conn a found

-- `GetDifferentAddr` never returns the address that the connection had. What it returns is in use by
-- the connection afterwards.
pub get_different_addr_differs :
    (c : Chance) (rs : Regions) (conn : ℕ) (err : Bool) (now : ℕ) (a : EdgeAddr)
    → Inv (total rs)
    → (get_different_addr c rs conn err now).1 ≡ some a
    → (lookup a (total rs) ≢ some (in_use conn))
      × (lookup a (total (get_different_addr c rs conn err now).0) ≡ some (in_use conn))
get_different_addr_differs c rs conn err now a v h =
    let (mid, ex, e, old, v', unheld) = get_different_addr_steps c rs conn err now v in
    let taken =
      taken_lookup conn ex (total mid) _ _ a
        (get_unused_addr-Takes c.free c.coin mid ex conn v'.distinct) (rw e at h) in
    (λ held. excluded a ex (old ∙ finds_held c.held rs conn a v held) taken.2, rw e taken.0)
