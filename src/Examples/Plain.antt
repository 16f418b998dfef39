-- ===== src/Examples/Plain.antt =====
-- Deciding that no character of a line breaks it.
use customs_buyer_intelligen.Prelude.{Bool, true, not, ◌&&◌, [], ◌∷◌, ◌≡◌, arith}
use customs_buyer_intelligen.Chain.{Text, IsPlain, is_break}

unfoldable pub plain? : Text → Bool
unfolding is_break
plain? [] = true
plain? (c ∷ t) = not (is_break c) && plain? t

pub plain?_sound : (t : Text) → plain? t ≡ true → IsPlain t
unfolding plain?
plain?_sound [] h = tt
plain?_sound (c ∷ t) h = (ground arith, plain?_sound t (ground arith))
