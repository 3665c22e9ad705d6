-- ===== src/Files/Relative/Restart.antt =====
-- START followed by READ NEXT, as statements.
use blitzy_open_cobol.Base.{ℕ, suc, ◌<◌, ◌≡◌, ◌≢◌, ◌⊎◌, false, some}
use blitzy_open_cobol.Base.Int.{pos}
use blitzy_open_cobol.Files.{CobFile, access_random, open_input, open_i_o}
use blitzy_open_cobol.Files.Stdio.{Stream}
use blitzy_open_cobol.Files.Relative.Slots.{IsSlotFile}

-- A RELATIVE file open for INPUT or I-O, not with random access, with `key + 1` in its key field.
pub record IsOpen (f : CobFile) (s : Stream) (key : ℕ) : Type 0 where
  pub on_s : f.stream ≡ some s
  pub good : IsSlotFile f.record_max s
  pub key_is : f.relative_key ≡ some (pos (suc key))
  pub long : 0 < f.record_max
  pub in_order : f.access_mode ≢ access_random
  pub reads : (f.open_mode ≡ open_input) ⊎ (f.open_mode ≡ open_i_o)
  pub there : f.flag_nonexistent ≡ false
