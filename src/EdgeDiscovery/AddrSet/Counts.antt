-- ===== src/EdgeDiscovery/AddrSet/Counts.antt =====
-- What the choices return, and how many addresses are free or held by a connection.
use shitflared.Prelude.{
  ℕ, zero, suc, ◌+◌, ◌≡◌, ◌⊎◌, inl, inr, refl, Bool, false, not, ◌&&◌, List, [], ◌∷◌, ◌++◌, Option,
  none, some, arith, if◌then◌else◌, lookup, insert, Bool-cases,
}
use shitflared.Prelude.Keys.{Distinct, lookup-cons_tail, lookup-cons_head}
use shitflared.EdgeDiscovery.AddrSet.{
  EdgeAddr, addr_eq, UsedBy, unused, in_use, AddrSet, pick, is_used_by, is_unused, is_addr,
  used_by_conn, unused_but, addr_used_by, available_addrs, get_unused_ip,
}

-- How many addresses a connection uses.
unfoldable pub uses : ℕ → AddrSet → ℕ
uses conn [] = 0
uses conn ((a, u) ∷ set) = let n = uses conn set in if is_used_by conn u then suc n else n

abbrev pub one_if : Bool → ℕ
one_if b = if b then 1 else 0

pub uses-append : (conn : ℕ) (xs ys : AddrSet) → uses conn (xs ++ ys) ≡ uses conn xs + uses conn ys
unfolding uses
uses-append conn [] ys = omega arith
uses-append conn ((a, u) ∷ xs) ys = ground (arith, uses-append conn xs ys)

-- A write to an address that is there moves the count by the old and the new user.
pub uses-insert :
    (conn : ℕ) (a : EdgeAddr) (u w : UsedBy) (set : AddrSet)
    → lookup a set ≡ some w
    → uses conn (insert a u set) + one_if (is_used_by conn w)
      ≡ uses conn set + one_if (is_used_by conn u)
unfolding uses lookup insert
uses-insert conn a u w [] h = cc
uses-insert conn a u w ((b, x) ∷ set) h = ground (arith, uses-insert conn a u w set)

pub available_addrs-insert :
    (a : EdgeAddr) (u w : UsedBy) (set : AddrSet)
    → lookup a set ≡ some w
    → available_addrs (insert a u set) + one_if (is_unused w)
      ≡ available_addrs set + one_if (is_unused u)
unfolding available_addrs lookup insert
available_addrs-insert a u w [] h = cc
available_addrs-insert a u w ((b, x) ∷ set) h = ground (arith, available_addrs-insert a u w set)

abbrev pub Among : EdgeAddr → List EdgeAddr → Type 0
Among a [] = ⊥
Among a (b ∷ bs) = (a ≡ b) ⊎ Among a bs

pick-Among : (choice : ℕ) (xs : List EdgeAddr) {a : EdgeAddr} → pick choice xs ≡ some a → Among a xs
unfolding pick
pick-Among choice [] h = cc
pick-Among zero (x ∷ []) h = inl (cc)
pick-Among (suc choice) (x ∷ []) h = inl (cc)
pick-Among zero (x ∷ y ∷ xs) h = inl (cc)
pick-Among (suc choice) (x ∷ y ∷ xs) h = inr (pick-Among choice (y ∷ xs) h)

pick-none : (choice : ℕ) (xs : List EdgeAddr) → pick choice xs ≡ none → xs ≡ []
unfolding pick
pick-none choice [] h = refl
pick-none zero (x ∷ []) h = cc
pick-none (suc choice) (x ∷ []) h = cc
pick-none zero (x ∷ y ∷ xs) h = cc
pick-none (suc choice) (x ∷ y ∷ xs) h = absurd (cc (pick-none choice (y ∷ xs) h))

-- With distinct keys, a member of either list is found in the map as the list says.
used_by_conn-lookup :
    (set : AddrSet) (conn : ℕ) (a : EdgeAddr)
    → Distinct set
    → Among a (used_by_conn set conn)
    → lookup a set ≡ some (in_use conn)
unfolding used_by_conn
used_by_conn-lookup [] conn a d h = absurd h
used_by_conn-lookup ((b, u) ∷ set) conn a d h = elim (Bool-cases (is_used_by conn u)) [
  | inl held ↦ elim (rw held at h) [
    | inl e ↦ rw (e, lookup-cons_head b u set) (ground arith)
    | inr later ↦ lookup-cons_tail b a u set d.0 (used_by_conn-lookup set conn a d.1 later)
  ]
  | inr other ↦ lookup-cons_tail b a u set d.0 (used_by_conn-lookup set conn a d.1 (rw other at h))
]

unused_but-lookup :
    (set : AddrSet) (ex : Option EdgeAddr) (a : EdgeAddr)
    → Distinct set
    → Among a (unused_but set ex)
    → (lookup a set ≡ some unused) × (is_addr ex a ≡ false)
unfolding unused_but
unused_but-lookup [] ex a d h = absurd h
unused_but-lookup ((b, u) ∷ set) ex a d h = elim (Bool-cases (is_unused u && not (is_addr ex b))) [
  | inl free ↦ elim (rw free at h) [
    | inl e ↦ rw (e, lookup-cons_head b u set) (ground arith)
    | inr later ↦
        let rest = unused_but-lookup set ex a d.1 later in
        (lookup-cons_tail b a u set d.0 rest.0, rest.1)
  ]
  | inr other ↦
      let rest = unused_but-lookup set ex a d.1 (rw other at h) in
      (lookup-cons_tail b a u set d.0 rest.0, rest.1)
]

-- No address is held where the list of holders is empty.
used_by_conn-nil : (set : AddrSet) (conn : ℕ) → used_by_conn set conn ≡ [] → uses conn set ≡ 0
unfolding used_by_conn uses
used_by_conn-nil [] conn h = refl
used_by_conn-nil ((a, u) ∷ set) conn h = ground (arith, used_by_conn-nil set conn)

pub addr_used_by-found :
    (choice : ℕ) (set : AddrSet) (conn : ℕ) {a : EdgeAddr}
    → Distinct set
    → addr_used_by choice set conn ≡ some a
    → lookup a set ≡ some (in_use conn)
unfolding addr_used_by
addr_used_by-found choice set conn {a} d h =
    used_by_conn-lookup set conn a d (pick-Among choice (used_by_conn set conn) h)

pub addr_used_by-none :
    (choice : ℕ) (set : AddrSet) (conn : ℕ)
    → addr_used_by choice set conn ≡ none
    → uses conn set ≡ 0
unfolding addr_used_by
addr_used_by-none choice set conn h =
    used_by_conn-nil set conn (pick-none choice (used_by_conn set conn) h)

pub get_unused_ip-found :
    (choice : ℕ) (set : AddrSet) (ex : Option EdgeAddr) {a : EdgeAddr}
    → Distinct set
    → get_unused_ip choice set ex ≡ some a
    → (lookup a set ≡ some unused) × (is_addr ex a ≡ false)
unfolding get_unused_ip
get_unused_ip-found choice set ex {a} d h =
    unused_but-lookup set ex a d (pick-Among choice (unused_but set ex) h)
