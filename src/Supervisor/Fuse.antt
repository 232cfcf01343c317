-- ===== src/Supervisor/Fuse.antt =====
-- supervisor/fuse.go: a value that can be set once.
use shitflared.Prelude.{
  ℕ, ◌≡◌, refl, Bool, true, false, List, [], ◌∷◌, Option, none, some, ◌==◌, if◌then◌else◌,
}

-- 0 is unset, 1 is true, 2 is false.
pub record BooleanFuse : Type 0 where
  pub value : ℕ

unfoldable pub new_boolean_fuse : BooleanFuse
new_boolean_fuse = record { value = 0 }

unfoldable pub fuse_value : BooleanFuse → Bool
fuse_value f = f.value == 1

unfoldable pub fuse : BooleanFuse → Bool → BooleanFuse
fuse f result = if f.value == 0 then record { value = if result then 1 else 2 } else f

-- `none` where `Await` goes on waiting.
unfoldable pub await : BooleanFuse → Option Bool
await f = if f.value == 0 then none else some (f.value == 1)

unfoldable pub fuse_all : BooleanFuse → List Bool → BooleanFuse
fuse_all f [] = f
fuse_all f (result ∷ rest) = fuse_all (fuse f result) rest

fuse_all-set : (f : BooleanFuse) (rest : List Bool) → (f.value == 0) ≡ false → fuse_all f rest ≡ f
unfolding fuse_all fuse
fuse_all-set f [] h = refl
fuse_all-set f (result ∷ rest) h = rw h (fuse_all-set f rest h)

-- The first call decides: whatever calls follow, `Await` returns and `Value` is what the first said.
pub first_fuse_decides :
    (result : Bool) (rest : List Bool)
    → (await (fuse_all new_boolean_fuse (result ∷ rest)) ≡ some result)
      × (fuse_value (fuse_all new_boolean_fuse (result ∷ rest)) ≡ result)
unfolding fuse_all fuse new_boolean_fuse await fuse_value
first_fuse_decides true rest = rw (fuse_all-set (record { value = 1 }) rest refl) (refl, refl)
first_fuse_decides false rest = rw (fuse_all-set (record { value = 2 }) rest refl) (refl, refl)
