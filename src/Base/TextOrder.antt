-- ===== src/Base/TextOrder.antt =====
-- The order of texts is total, transitive and antisymmetric.
use mathlib.Core.Path.{◌≡◌, refl}
use mathlib.Core.Bool.{true, false}
use mathlib.Core.List.{[], ◌∷◌}
use native.Mathlib.Omega.{arith}
use aerosuite.Base.Text.{Bytes, bytes_leb, bytes_beq}

pub bytes_leb-total : (a b : Bytes) → bytes_leb a b ≡ false → bytes_leb b a ≡ true
unfolding bytes_leb
bytes_leb-total [] b h = cc
bytes_leb-total (x ∷ a) [] h = refl
bytes_leb-total (x ∷ a) (y ∷ b) h = ground (arith, bytes_leb-total a b)

pub bytes_leb_trans :
    (a b c : Bytes) → bytes_leb a b ≡ true → bytes_leb b c ≡ true → bytes_leb a c ≡ true
unfolding bytes_leb
bytes_leb_trans [] b c h k = refl
bytes_leb_trans (x ∷ a) [] c h k = cc
bytes_leb_trans (x ∷ a) (y ∷ b) [] h k = cc
bytes_leb_trans (x ∷ a) (y ∷ b) (z ∷ c) h k = ground (arith, bytes_leb_trans a b c)

pub bytes_leb_antisymm :
    (a b : Bytes) → bytes_leb a b ≡ true → bytes_leb b a ≡ true → bytes_beq a b ≡ true
unfolding bytes_leb bytes_beq
bytes_leb_antisymm [] [] h k = refl
bytes_leb_antisymm [] (y ∷ b) h k = cc
bytes_leb_antisymm (x ∷ a) [] h k = cc
bytes_leb_antisymm (x ∷ a) (y ∷ b) h k = ground (arith, bytes_leb_antisymm a b)
