-- ===== src/EdgeDiscovery/Region/Flat.antt =====
-- A region seen as one map from addresses to their users: its operations on that map.
use shitflared.Prelude.{
  Bool, true, false, ℕ, ◌≡◌, ◌⊎◌, inl, inr, refl, sym, ap, ◌∙◌, ◌++◌, Option, none, some, arith,
  lookup, insert, Option-cases,
}
use shitflared.Prelude.Keys.{
  Distinct, lookup-append_found, lookup-append_missing, insert-append_found, insert-append_missing,
  Distinct-append_disjoint, Distinct-append_front, Distinct-append_back,
}
use shitflared.EdgeDiscovery.AddrSet.{
  EdgeAddr, addr_eq, UsedBy, unused, in_use, AddrSet, is_addr, addr_used_by, get_unused_ip, assign,
  give_back,
}
use shitflared.EdgeDiscovery.AddrSet.Counts.{
  uses, uses-append, addr_used_by-found, addr_used_by-none, get_unused_ip-found,
}
use shitflared.EdgeDiscovery.Region.{
  Region, Active, primary_set, secondary_set, active_set, put_active, region_addr_used_by,
  assign_any_address, after_give_back, activate_primary, region_give_back, give_back_primary,
  give_back_secondary,
}

abbrev pub flat : Region → AddrSet
flat r = r.primary ++ r.secondary

pub region_addr_used_by-found :
    (choice : ℕ) (r : Region) (conn : ℕ) {a : EdgeAddr}
    → Distinct (flat r)
    → region_addr_used_by choice r conn ≡ some a
    → lookup a (flat r) ≡ some (in_use conn)
unfolding region_addr_used_by
region_addr_used_by-found choice r conn {a} d h =
    elim (Option-cases (addr_used_by choice r.primary conn)) [
      | inl e ↦
          let found =
            addr_used_by-found choice r.secondary conn
              (Distinct-append_back r.primary r.secondary d) (rw e at h) in
          lookup-append_missing a r.primary r.secondary
            (Distinct-append_disjoint r.primary r.secondary a d found)
          ∙ found
      | inr (b, e) ↦ lookup-append_found a r.primary r.secondary (
          addr_used_by-found choice r.primary conn (Distinct-append_front r.primary r.secondary d)
            (e ∙ rw e at h))
    ]

pub region_addr_used_by-none :
    (choice : ℕ) (r : Region) (conn : ℕ)
    → region_addr_used_by choice r conn ≡ none
    → uses conn (flat r) ≡ 0
unfolding region_addr_used_by
region_addr_used_by-none choice r conn h =
    elim (Option-cases (addr_used_by choice r.primary conn)) [
      | inl e ↦ omega (
        arith,
        uses-append conn r.primary r.secondary,
        addr_used_by-none choice r.primary conn e,
        addr_used_by-none choice r.secondary conn (rw e at h),
      )
      | inr (b, e) ↦ absurd (cc (rw e at h))
    ]

-- A write to an address of the active set is that write to the flat map.
flat-put_active :
    (x : Active) (r : Region) (a : EdgeAddr) (u w : UsedBy)
    → r.active ≡ x
    → Distinct (flat r)
    → lookup a (active_set r) ≡ some w
    → (lookup a (flat r) ≡ some w)
      × (flat (put_active r (insert a u (active_set r))) ≡ insert a u (flat r))
flat-put_active primary_set r a u w e d h =
    let found : lookup a r.primary ≡ some w = rw e at h in
    (
      lookup-append_found a r.primary r.secondary found,
      rw e (sym (insert-append_found a u r.primary r.secondary found)),
    )
flat-put_active secondary_set r a u w e d h =
    let found : lookup a r.secondary ≡ some w = rw e at h in
    let missing = Distinct-append_disjoint r.primary r.secondary a d found in
    (
      lookup-append_missing a r.primary r.secondary missing ∙ found,
      rw e (sym (insert-append_missing a u r.primary r.secondary missing)),
    )

Distinct-active :
    (x : Active) (r : Region) → r.active ≡ x → Distinct (flat r) → Distinct (active_set r)
Distinct-active primary_set r e d = rw e (Distinct-append_front r.primary r.secondary d)
Distinct-active secondary_set r e d = rw e (Distinct-append_back r.primary r.secondary d)

-- A free address that is not excluded is taken, or the region is left as it was.
abbrev pub Assigned : ℕ → Option EdgeAddr → Region → Region × Option EdgeAddr → Type 0
Assigned conn ex r p =
    (p ≡ (r, none))
    ⊎ ((a : EdgeAddr) × (p.1 ≡ some a)
        × (lookup a (flat r) ≡ some unused)
        × (is_addr ex a ≡ false)
        × (flat p.0 ≡ insert a (in_use conn) (flat r)))

pub assign_any_address-Assigned :
    (choice : ℕ) (r : Region) (conn : ℕ) (ex : Option EdgeAddr)
    → Distinct (flat r)
    → Assigned conn ex r (assign_any_address choice r conn ex)
unfolding assign_any_address assign
assign_any_address-Assigned choice r conn ex d =
    elim (Option-cases (get_unused_ip choice (active_set r) ex)) [
      | inl e ↦ inl (rw e refl)
      | inr (a, e) ↦
          let free =
            get_unused_ip-found choice (active_set r) ex (Distinct-active r.active r refl d) e in
          let put = flat-put_active r.active r a (in_use conn) unused refl d free.0 in
          inr (a, rw e refl, put.0, free.1, rw e put.1)
    ]

after_give_back-sets :
    (r : Region) (a : EdgeAddr) (err : Bool) (now : ℕ) → flat (after_give_back r a err now) ≡ flat r
unfolding after_give_back activate_primary
after_give_back-sets r a err now = ground arith

-- The address is freed, or it is not in the region, which then is left as it was.
abbrev pub GivenBack : EdgeAddr → Region → Region × Bool → Type 0
GivenBack a r p =
    ((p ≡ (r, false)) × (lookup a (flat r) ≡ none))
    ⊎ ((u : UsedBy) × (p.1 ≡ true)
        × (lookup a (flat r) ≡ some u)
        × (flat p.0 ≡ insert a unused (flat r)))

give_back_found :
    (set : AddrSet) (a : EdgeAddr) {u : UsedBy}
    → lookup a set ≡ some u
    → give_back set a ≡ (insert a unused set, true)
unfolding give_back
give_back_found set a h = rw (h, give_back) refl

give_back_missing :
    (set : AddrSet) (a : EdgeAddr) → lookup a set ≡ none → give_back set a ≡ (set, false)
unfolding give_back
give_back_missing set a h = rw (h, give_back) refl

module _ (r : Region) (a : EdgeAddr) (err : Bool) (now : ℕ) where
  give_back_in_primary :
      {u : UsedBy}
      → lookup a r.primary ≡ some u
      → region_give_back r a err now
        ≡ (after_give_back (record r { primary = insert a unused r.primary }) a err now, true)
  unfolding region_give_back
  give_back_in_primary h = ap (give_back_primary r a err now) (give_back_found r.primary a h)

  give_back_in_secondary :
      {u : UsedBy}
      → lookup a r.primary ≡ none
      → lookup a r.secondary ≡ some u
      → region_give_back r a err now
        ≡ (after_give_back (record r { secondary = insert a unused r.secondary }) a err now, true)
  unfolding region_give_back
  give_back_in_secondary missing h =
      ap (give_back_primary r a err now) (give_back_missing r.primary a missing)
      ∙ ap (give_back_secondary r a err now) (give_back_found r.secondary a h)

  give_back_absent :
      lookup a r.primary ≡ none
      → lookup a r.secondary ≡ none
      → region_give_back r a err now ≡ (r, false)
  unfolding region_give_back
  give_back_absent missing h =
      ap (give_back_primary r a err now) (give_back_missing r.primary a missing)
      ∙ ap (give_back_secondary r a err now) (give_back_missing r.secondary a h)

  pub region_give_back-GivenBack : GivenBack a r (region_give_back r a err now)
  region_give_back-GivenBack = elim (Option-cases (lookup a r.primary)) [
    | inr (u, e) ↦ rw (give_back_in_primary e) (
        inr (
          u,
          refl,
          lookup-append_found a r.primary r.secondary e,
          after_give_back-sets (record r { primary = insert a unused r.primary }) a err now
              ∙ sym (insert-append_found a unused r.primary r.secondary e),
        ))
    | inl missing ↦ elim (Option-cases (lookup a r.secondary)) [
      | inr (u, e) ↦ rw (give_back_in_secondary missing e) (
          inr (
            u,
            refl,
            lookup-append_missing a r.primary r.secondary missing ∙ e,
            after_give_back-sets (record r { secondary = insert a unused r.secondary }) a err now
                ∙ sym (insert-append_missing a unused r.primary r.secondary missing),
          ))
      | inl e ↦
          rw (give_back_absent missing e)
            (inl (refl, lookup-append_missing a r.primary r.secondary missing ∙ e))
    ]
  ]
