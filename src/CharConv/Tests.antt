-- ===== src/CharConv/Tests.antt =====
-- The letters on concrete characters.
use rpatk.Base.{◌≡◌, refl}
use rpatk.CharConv.{charicase}

cyrillic : charicase 0x0411 ≡ 0x0431
unfolding charicase
cyrillic = refl
