-- ===== src/Tests/EraseTests.antt =====
-- Three bytes, of which two are erased.
use neonrt.Base.{◌≡◌, some, [], ◌∷◌}
use neonrt.SecureErase.{explicit_erase, explicit_erase_hook, explicit_erase_lem}

explicit_erase_lem_example :
    explicit_erase explicit_erase_hook (7 ∷ 8 ∷ 9 ∷ []) 2 ≡ some (0 ∷ 0 ∷ 9 ∷ [])
explicit_erase_lem_example = explicit_erase_lem explicit_erase_hook (7 ∷ 8 ∷ 9 ∷ []) 2
