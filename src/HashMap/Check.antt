-- ===== src/HashMap/Check.antt =====
-- Errors of the map and their callback.
use Prim.Native.String.{String}
use neonrt.Base.{ℕ, Bool, true, false, ◌∷◌, if◌then◌else◌}
use neonrt.HashMap.{HmapCmd, pure, ◌>>=◌, ◌>>◌, get, modify, error_locked, error_unrecoverable}

-- The message and the code are kept, and the error callback is called.
unfoldable pub hmap_set_error : String → String → ℕ → HmapCmd (Unit {0})
hmap_set_error msg fn_name error_code = modify λ hmap. record hmap {
  last_error_msg = (fn_name, msg);
  last_error_code = error_code;
  reports =
      record { callback = hmap.error_callback; fn_name = fn_name; msg = msg; code = error_code }
      ∷ hmap.reports;
}

unfoldable pub hmap_check : String → HmapCmd Bool
unfolding hmap_set_error
hmap_check fn_name = do
  hmap ← get
  if hmap.locked
      then hmap_set_error "hashmap is locked" fn_name error_locked >> pure false
      else if hmap.unrecoverable_error
      then hmap_set_error "hashmap is in an unrecoverable error state" fn_name error_unrecoverable
        >> pure false
      else pure true
