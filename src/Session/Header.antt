-- ===== src/Session/Header.antt =====
-- What the header check of a session log accepts.
use customs_buyer_intelligen.Prelude.{List, [], ◌∷◌, ◌++◌, ◌≡◌, arith}
use customs_buyer_intelligen.Python.{Fields, Host}
use customs_buyer_intelligen.Chain.{ok}
use customs_buyer_intelligen.Session.{with_header}

module _ {F : Type 0} ⦃py : Host F⦄ where
  pub with_header-same : (es fs : List (Fields F)) → with_header es ≡ ok fs → fs ≡ es
  unfolding with_header
  with_header-same [] fs h = cc
  with_header-same (e ∷ es) fs h = ground arith

  pub with_header-append :
      (es fs : List (Fields F)) → with_header es ≡ ok es → with_header (es ++ fs) ≡ ok (es ++ fs)
  unfolding with_header
  with_header-append [] fs h = cc
  with_header-append (e ∷ es) fs h = ground arith
