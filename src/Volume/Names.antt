-- ===== src/Volume/Names.antt =====
-- `iequals` and what `traverse` makes of a name.
use craft_osos.Base.{◌≡◌, ◌↔◌, true, [], ◌∷◌, ◌++◌, map, arith, refl, ap}
use craft_osos.Lua.{Text}
use craft_osos.Directory.{to_lower}
use craft_osos.Volume.{iequals}

from_prefix : (a c rest : Text) → map to_lower c ≡ map to_lower a → iequals a (c ++ rest) ≡ true
unfolding iequals
from_prefix [] c rest e = refl
from_prefix (x ∷ a) [] rest e = absurd (ground arith)
from_prefix (x ∷ a) (y ∷ c) rest e = ground (arith, from_prefix a c rest)

to_prefix :
    (a b : Text)
    → iequals a b ≡ true
    → (c rest : Text) × (b ≡ c ++ rest) × (map to_lower c ≡ map to_lower a)
unfolding iequals
to_prefix [] b h = ([], b, refl, refl)
to_prefix (x ∷ a) [] h = absurd (ground arith)
to_prefix (x ∷ a) (y ∷ b) h =
    let (c, rest, e, same) = to_prefix a b (ground arith) in
    (y ∷ c, rest, ap (λ l. y ∷ l) e, ground arith)

-- The name of an entry matches a wanted name exactly when it is a prefix of it, in upper or lower
-- case: the wanted name may go on behind it.
pub iequals_lem :
    (a b : Text)
    → (iequals a b ≡ true) ↔ ((c rest : Text) × (b ≡ c ++ rest) × (map to_lower c ≡ map to_lower a))
iequals_lem a b = (to_prefix a b, λ (c, rest, e, same). rw e (from_prefix a c rest same))
