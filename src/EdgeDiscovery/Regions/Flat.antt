-- ===== src/EdgeDiscovery/Regions/Flat.antt =====
-- The two regions seen as one map from addresses to their users.
use shitflared.Prelude.{
  ℕ, ◌≡◌, ◌⊎◌, inl, inr, refl, sym, ◌∙◌, ap, Bool, true, false, ◌++◌, Option, none, some, arith,
  lookup, insert, Bool-cases, Option-cases,
}
use shitflared.Prelude.Keys.{
  Distinct, lookup-append_found, lookup-append_missing, insert-append_found, insert-append_missing,
  Distinct-append_disjoint, Distinct-append_front, Distinct-append_back,
}
use shitflared.EdgeDiscovery.AddrSet.{EdgeAddr, addr_eq, UsedBy, unused, in_use, AddrSet, is_addr}
use shitflared.EdgeDiscovery.AddrSet.Counts.{uses, uses-append}
use shitflared.EdgeDiscovery.Region.{Region, region_addr_used_by, region_give_back}
use shitflared.EdgeDiscovery.Region.Flat.{
  flat, region_addr_used_by-found, region_addr_used_by-none, Assigned, assign_any_address-Assigned,
  GivenBack, region_give_back-GivenBack,
}
use shitflared.EdgeDiscovery.Regions.{
  Regions, regions_addr_used_by, get_addrs, get_unused_addr, regions_give_back, prefers_1,
}

abbrev pub total : Regions → AddrSet
total rs = flat rs.region1 ++ flat rs.region2

pub regions_addr_used_by-found :
    (choice : ℕ) (rs : Regions) (conn : ℕ) {a : EdgeAddr}
    → Distinct (total rs)
    → regions_addr_used_by choice rs conn ≡ some a
    → lookup a (total rs) ≡ some (in_use conn)
unfolding regions_addr_used_by
regions_addr_used_by-found choice rs conn {a} d h =
    elim (Option-cases (region_addr_used_by choice rs.region1 conn)) [
      | inl e ↦
          let found =
            region_addr_used_by-found choice rs.region2 conn
              (Distinct-append_back (flat rs.region1) (flat rs.region2) d) (rw e at h) in
          lookup-append_missing a (flat rs.region1) (flat rs.region2)
            (Distinct-append_disjoint (flat rs.region1) (flat rs.region2) a d found)
          ∙ found
      | inr (b, e) ↦ lookup-append_found a (flat rs.region1) (flat rs.region2) (
          region_addr_used_by-found choice rs.region1 conn
            (Distinct-append_front (flat rs.region1) (flat rs.region2) d) (e ∙ rw e at h))
    ]

pub regions_addr_used_by-none :
    (choice : ℕ) (rs : Regions) (conn : ℕ)
    → regions_addr_used_by choice rs conn ≡ none
    → uses conn (total rs) ≡ 0
unfolding regions_addr_used_by
regions_addr_used_by-none choice rs conn h =
    elim (Option-cases (region_addr_used_by choice rs.region1 conn)) [
      | inl e ↦ omega (
        arith,
        uses-append conn (flat rs.region1) (flat rs.region2),
        region_addr_used_by-none choice rs.region1 conn e,
        region_addr_used_by-none choice rs.region2 conn (rw e at h),
      )
      | inr (b, e) ↦ absurd (cc (rw e at h))
    ]

abbrev pub Takes : ℕ → Option EdgeAddr → AddrSet → AddrSet → Option EdgeAddr → Type 0
Takes conn ex before after addr =
    ((addr ≡ none) × (after ≡ before))
    ⊎ ((a : EdgeAddr) × (addr ≡ some a)
        × (lookup a before ≡ some unused)
        × (is_addr ex a ≡ false)
        × (after ≡ insert a (in_use conn) before))

-- A change of one region is that change of the whole.
insert_1 :
    (a : EdgeAddr) (u w : UsedBy) (xs xs' ys : AddrSet)
    → lookup a xs ≡ some w
    → xs' ≡ insert a u xs
    → (lookup a (xs ++ ys) ≡ some w) × (xs' ++ ys ≡ insert a u (xs ++ ys))
insert_1 a u w xs xs' ys found e =
    (lookup-append_found a xs ys found, rw e (sym (insert-append_found a u xs ys found)))

insert_2 :
    (a : EdgeAddr) (u w : UsedBy) (xs ys ys' : AddrSet)
    → lookup a xs ≡ none
    → lookup a ys ≡ some w
    → ys' ≡ insert a u ys
    → (lookup a (xs ++ ys) ≡ some w) × (xs ++ ys' ≡ insert a u (xs ++ ys))
insert_2 a u w xs ys ys' missing found e = (
  lookup-append_missing a xs ys missing ∙ found,
  rw e (sym (insert-append_missing a u xs ys missing)),
)

-- Which of the two regions the address came from.
get_addrs_cases :
    (choice : ℕ) (ex : Option EdgeAddr) (conn : ℕ) (first second : Region)
    → Distinct (flat first)
    → Distinct (flat second)
    → let t = get_addrs choice ex conn first second in
      ((t.first ≡ first) × Assigned conn ex second (t.second, t.addr))
      ⊎ ((t.second ≡ second) × Assigned conn ex first (t.first, t.addr))
unfolding get_addrs
get_addrs_cases choice ex conn first second d1 d2 =
    elim (assign_any_address-Assigned choice first conn ex d1) [
      | inl e ↦ inl (rw e (refl, assign_any_address-Assigned choice second conn ex d2))
      | inr (a, e, free, other, f) ↦ inr (rw e (refl, inr (a, refl, free, other, f)))
    ]

lift_1 :
    (conn : ℕ) (ex : Option EdgeAddr) (r1 r2 r : Region) (addr : Option EdgeAddr)
    → Assigned conn ex r1 (r, addr)
    → Takes conn ex (flat r1 ++ flat r2) (flat r ++ flat r2) addr
lift_1 conn ex r1 r2 r addr (inl e) = inl (ap (λ p. p.1) e, rw (ap (λ p. p.0) e) refl)
lift_1 conn ex r1 r2 r addr (inr (a, e, free, other, f)) =
    let whole = insert_1 a (in_use conn) unused (flat r1) (flat r) (flat r2) free f in
    inr (a, e, whole.0, other, whole.1)

lift_2 :
    (conn : ℕ) (ex : Option EdgeAddr) (r1 r2 r : Region) (addr : Option EdgeAddr)
    → Distinct (flat r1 ++ flat r2)
    → Assigned conn ex r2 (r, addr)
    → Takes conn ex (flat r1 ++ flat r2) (flat r1 ++ flat r) addr
lift_2 conn ex r1 r2 r addr d (inl e) = inl (ap (λ p. p.1) e, rw (ap (λ p. p.0) e) refl)
lift_2 conn ex r1 r2 r addr d (inr (a, e, free, other, f)) =
    let missing = Distinct-append_disjoint (flat r1) (flat r2) a d free in
    let whole = insert_2 a (in_use conn) unused (flat r1) (flat r2) (flat r) missing free f in
    inr (a, e, whole.0, other, whole.1)

-- Asked in either order, the regions give a free address that is not excluded, or none.
pub get_unused_addr-Takes :
    (choice : ℕ) (coin : Bool) (rs : Regions) (ex : Option EdgeAddr) (conn : ℕ)
    → Distinct (total rs)
    → let (rs', addr) = get_unused_addr choice coin rs ex conn in
      Takes conn ex (total rs) (total rs') addr
unfolding get_unused_addr
get_unused_addr-Takes choice coin rs ex conn d =
    let d1 = Distinct-append_front (flat rs.region1) (flat rs.region2) d in
    let d2 = Distinct-append_back (flat rs.region1) (flat rs.region2) d in
    elim (Bool-cases (prefers_1 coin rs)) [
      | inl e ↦ rw e (elim (get_addrs_cases choice ex conn rs.region1 rs.region2 d1 d2) [
        | inl (f, h) ↦ rw f (lift_2 conn ex rs.region1 rs.region2 _ _ d h)
        | inr (f, h) ↦ rw f (lift_1 conn ex rs.region1 rs.region2 _ _ h)
      ])
      | inr e ↦ rw e (elim (get_addrs_cases choice ex conn rs.region2 rs.region1 d2 d1) [
        | inl (f, h) ↦ rw f (lift_1 conn ex rs.region1 rs.region2 _ _ h)
        | inr (f, h) ↦ rw f (lift_2 conn ex rs.region1 rs.region2 _ _ d h)
      ])
    ]

abbrev pub Frees : EdgeAddr → AddrSet → AddrSet → Bool → Type 0
Frees a before after found =
    ((found ≡ false) × (lookup a before ≡ none) × (after ≡ before))
    ⊎ ((u : UsedBy) × (found ≡ true)
        × (lookup a before ≡ some u)
        × (after ≡ insert a unused before))

give_back_2nd :
    (rs : Regions) (a : EdgeAddr) (p : Region × Bool)
    → lookup a (flat rs.region1) ≡ none
    → GivenBack a rs.region2 p
    → Frees a (total rs) (flat rs.region1 ++ flat p.0) p.1
give_back_2nd rs a p missing (inl (e, h)) = inl (
  ap (λ q. q.1) e,
  lookup-append_missing a (flat rs.region1) (flat rs.region2) missing ∙ h,
  rw (ap (λ q. q.0) e) refl,
)
give_back_2nd rs a p missing (inr (u, e, h, f)) =
    let whole = insert_2 a unused u (flat rs.region1) (flat rs.region2) (flat p.0) missing h f in
    inr (u, e, whole.0, whole.1)

-- The address is freed, and only that; or the edge does not have it, and nothing changes.
pub regions_give_back-Frees :
    (rs : Regions) (a : EdgeAddr) (err : Bool) (now : ℕ)
    → let (rs', found) = regions_give_back rs a err now in Frees a (total rs) (total rs') found
unfolding regions_give_back
regions_give_back-Frees rs a err now = elim (region_give_back-GivenBack rs.region1 a err now) [
  | inl (e, missing) ↦ rw e (
      give_back_2nd rs a (region_give_back rs.region2 a err now) missing
        (region_give_back-GivenBack rs.region2 a err now))
  | inr (u, e, h, f) ↦
      let r : Region = (region_give_back rs.region1 a err now).0 in
      let whole = insert_1 a unused u (flat rs.region1) (flat r) (flat rs.region2) h f in
      rw e (inr (u, refl, whole.0, whole.1))
]
