-- ===== src/EdgeDiscovery/Edge/Invariant.antt =====
-- No history of calls makes a connection hold two addresses, or two connections one.
use shitflared.Prelude.{
  ℕ, ◌≤◌, ◌≡◌, inl, inr, refl, sym, Bool, Option, none, some, arith, lookup, insert, Option-cases,
}
use shitflared.Prelude.Keys.{Distinct, Distinct-insert}
use shitflared.EdgeDiscovery.AddrSet.{EdgeAddr, addr_eq, unused, in_use, AddrSet}
use shitflared.EdgeDiscovery.AddrSet.Counts.{uses, uses-insert}
use shitflared.EdgeDiscovery.Regions.{
  Regions, regions_addr_used_by, get_unused_addr, regions_give_back,
}
use shitflared.EdgeDiscovery.Regions.Flat.{
  total, regions_addr_used_by-found, regions_addr_used_by-none, Takes, get_unused_addr-Takes, Frees,
  regions_give_back-Frees,
}
use shitflared.EdgeDiscovery.Edge.{Chance, get_addr, get_different_addr, edge_give_back}

-- The addresses are distinct, as keys of maps are and as pointers of different regions are, and no
-- connection uses more than one.
pub record Inv (set : AddrSet) : Type 0 where
  pub distinct : Distinct set
  pub one_each : (conn : ℕ) → uses conn set ≤ 1

-- What a connection that uses no address may take.
Takes-Inv :
    (conn : ℕ) (ex : Option EdgeAddr) (before after : AddrSet) (addr : Option EdgeAddr)
    → Inv before
    → uses conn before ≡ 0
    → Takes conn ex before after addr
    → Inv after
Takes-Inv conn ex before after addr v h (inl (e, same)) = rw same v
Takes-Inv conn ex before after addr v h (inr (a, e, free, other, f)) = rw f (record {
  distinct = Distinct-insert a (in_use conn) before v.distinct;
  one_each = λ c. at_most c;
})
  where
    at_most : (c : ℕ) → uses c (insert a (in_use conn) before) ≤ 1
    at_most c = ground (arith, uses-insert c a (in_use conn) unused before free, v.one_each c, h)

Frees-Inv :
    (a : EdgeAddr) (before after : AddrSet) (found : Bool)
    → Inv before
    → Frees a before after found
    → Inv after
Frees-Inv a before after found v (inl (e, missing, same)) = rw same v
Frees-Inv a before after found v (inr (u, e, h, f)) =
    rw f
      (record { distinct = Distinct-insert a unused before v.distinct; one_each = λ c. at_most c })
  where
    at_most : (c : ℕ) → uses c (insert a unused before) ≤ 1
    at_most c = ground (arith, uses-insert c a unused u before h, v.one_each c)

-- After its address went back, a connection uses none.
freed_uses :
    (conn : ℕ) (a : EdgeAddr) (before after : AddrSet) (found : Bool)
    → Inv before
    → lookup a before ≡ some (in_use conn)
    → Frees a before after found
    → uses conn after ≡ 0
freed_uses conn a before after found v held (inl (e, missing, same)) = absurd (cc (held, missing))
freed_uses conn a before after found v held (inr (u, e, h, f)) =
    rw f (ground (arith, uses-insert conn a unused (in_use conn) before held, v.one_each conn))

pub get_addr-Inv :
    (c : Chance) (rs : Regions) (conn : ℕ) → Inv (total rs) → Inv (total (get_addr c rs conn).0)
unfolding get_addr
get_addr-Inv c rs conn v = elim (Option-cases (regions_addr_used_by c.held rs conn)) [
  | inr (a, e) ↦ rw (e, get_addr) v
  | inl e ↦
      rw (e, get_addr)
        (Takes-Inv conn none (total rs) _ _ v (regions_addr_used_by-none c.held rs conn e)
          (get_unused_addr-Takes c.free c.coin rs none conn v.distinct))
]

-- The cases of `GetDifferentAddr`: the address that goes back, if there is one, is the one that the
-- connection uses.
pub get_different_addr_steps :
    (c : Chance) (rs : Regions) (conn : ℕ) (err : Bool) (now : ℕ)
    → Inv (total rs)
    → (mid : Regions) × (ex : Option EdgeAddr) × (get_different_addr c rs conn err now
        ≡ get_unused_addr c.free c.coin mid ex conn)
      × (ex ≡ regions_addr_used_by c.held rs conn)
      × Inv (total mid)
      × (uses conn (total mid) ≡ 0)
unfolding get_different_addr
get_different_addr_steps c rs conn err now v =
    elim (Option-cases (regions_addr_used_by c.held rs conn)) [
      | inl e ↦ (
        rs,
        none,
        rw (e, get_different_addr) refl,
        sym e,
        v,
        regions_addr_used_by-none c.held rs conn e,
      )
      | inr (old, e) ↦
          let back = regions_give_back-Frees rs old err now in
          let held = regions_addr_used_by-found c.held rs conn v.distinct e in
          (
            (regions_give_back rs old err now).0,
            some old,
            rw (e, get_different_addr) refl,
            sym e,
            Frees-Inv old (total rs) _ _ v back,
            freed_uses conn old (total rs) _ _ v held back,
          )
    ]

pub get_different_addr-Inv :
    (c : Chance) (rs : Regions) (conn : ℕ) (err : Bool) (now : ℕ)
    → Inv (total rs)
    → Inv (total (get_different_addr c rs conn err now).0)
get_different_addr-Inv c rs conn err now v =
    let (mid, ex, e, _, v', none_used) = get_different_addr_steps c rs conn err now v in
    rw e (
      Takes-Inv conn ex (total mid) _ _ v' none_used
        (get_unused_addr-Takes c.free c.coin mid ex conn v'.distinct))

pub edge_give_back-Inv :
    (rs : Regions) (a : EdgeAddr) (err : Bool) (now : ℕ)
    → Inv (total rs)
    → Inv (total (edge_give_back rs a err now).0)
unfolding edge_give_back
edge_give_back-Inv rs a err now v =
    Frees-Inv a (total rs) _ _ v (regions_give_back-Frees rs a err now)
