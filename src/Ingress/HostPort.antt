-- ===== src/Ingress/HostPort.antt =====
-- The host and the port of an address text, as `net.SplitHostPort` of the standard library takes them
-- apart for ingress/ingress.go.
use shitflared.Prelude.{
  ℕ, suc, ◌+◌, ◌-◌, Bool, true, false, ◌||◌, [], ◌∷◌, Option, none, some, take, drop, ◌==◌,
  if◌then◌else◌,
}
use shitflared.Prelude.Text.{Text}

abbrev pub has_code : ℕ → Text → Bool
has_code c [] = false
has_code c (a ∷ s) = (a == c) || has_code c s

abbrev next : Option ℕ → Option ℕ
next none = none
next (some i) = some (suc i)

abbrev pub index_of : ℕ → Text → Option ℕ
index_of c [] = none
index_of c (a ∷ s) = let rest = next (index_of c s) in if a == c then some 0 else rest

abbrev pub last_or : Option ℕ → Bool → Option ℕ
last_or (some i) here = some (suc i)
last_or none true = some 0
last_or none false = none

abbrev pub last_index_of : ℕ → Text → Option ℕ
last_index_of c [] = none
last_index_of c (a ∷ s) = last_or (last_index_of c s) (a == c)

-- The last tests: no bracket where there can be none.
abbrev without_brackets : Text → Text → Text → Text → Option (Text × Text)
without_brackets host after_open after_close port =
    if has_code 91 after_open || has_code 93 after_close then none else some (host, port)

-- With the last colon at `i`; in brackets the address ends just in front of it.
abbrev split_at_colon : Text → ℕ → Option (Text × Text)
split_at_colon [] i = none
split_at_colon (c ∷ s) i =
    if c == 91
    then elim (index_of 93 (c ∷ s)) [
      | none ↦ none
      | some end ↦
          if suc end == i
          then without_brackets (take (end - 1) s) s (drop (suc end) (c ∷ s)) (drop (i + 1) (c ∷ s))
          else none
    ]
    else if has_code 58 (take i (c ∷ s))
    then none
    else without_brackets (take i (c ∷ s)) (c ∷ s) (c ∷ s) (drop (i + 1) (c ∷ s))

unfoldable pub split_host_port : Text → Option (Text × Text)
split_host_port text = elim (last_index_of 58 text) [ none ↦ none | some i ↦ split_at_colon text i ]

abbrev host_or : Option (Text × Text) → Text → Text
host_or none text = text
host_or (some (host, port)) text = host

-- `host, _, err := net.SplitHostPort(hostname); if err == nil { hostname = host }`.
unfoldable pub without_port : Text → Text
without_port text = host_or (split_host_port text) text
