-- ===== src/Files/Relative/NotEqual.antt =====
-- START NOT EQUAL on a RELATIVE file: the switch of `relative_start` has no case for COB_NE.
use blitzy_open_cobol.Base.{ℕ, zero, suc, ◌+◌, ◌≤◌, ◌≡◌, refl, none, arith}
use blitzy_open_cobol.Base.Int.{pos}
use blitzy_open_cobol.Files.{CobFile, KeyField, cond_ne}
use blitzy_open_cobol.Files.Stdio.{Stream}
use blitzy_open_cobol.Files.Stdio.Words.{word_size}
use blitzy_open_cobol.Files.Relative.{start_scan}
use blitzy_open_cobol.Files.Relative.Slots.{IsSlotFile, slot_at, slot_header}
use blitzy_open_cobol.Files.Relative.Transfers.{moved}
use blitzy_open_cobol.Files.Relative.Forward.{at_slot}

-- START NOT EQUAL at a number whose slot is in the file and free never ends: no number of turns of
-- the loop is enough, since each turn reads the same slot.
pub start_scan-not_equal :
    (keys : KeyField) (fuel : ℕ) (f : CobFile) (s : Stream) (p i : ℕ)
    → IsSlotFile f.record_max s
    → slot_at f.record_max (suc i) ≤ s.size
    → slot_header f.record_max s i ≡ 0
    → start_scan keys fuel cond_ne f (moved s p) (pos i) ≡ none
unfolding start_scan
start_scan-not_equal keys zero f s p i good inside free = refl
start_scan-not_equal keys (suc fuel) f s p i good inside free =
    let again =
      start_scan-not_equal keys fuel (record f { size = slot_header f.record_max s i }) s
        (slot_at f.record_max i + word_size) i good inside free in
    ground (arith, at_slot f s p i good inside, free, again)
