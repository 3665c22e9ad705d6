-- ===== src/Inspect/Examples.antt =====
-- Runs of the INSPECT statement, and the theorems about it applied.
use blitzy_open_cobol.Base.{◌+◌, ◌*◌, ◌≡◌, refl, arith, true, false, none, [], ◌∷◌, map, replicate}
use blitzy_open_cobol.Base.Int.{pos}
use blitzy_open_cobol.Base.Buffers.{copy_at, find_first}
use blitzy_open_cobol.Field.{Field}
use blitzy_open_cobol.Field.Sign.{get_sign, put_sign}
use blitzy_open_cobol.Samples.{ascii_module, alphanumeric_field}
use blitzy_open_cobol.Inspect.{
  InspectState, inspect_init, begin, inspect_before, inspect_after, inspect_common,
  inspect_converting, inspect_finish, put_marks, alloc_figurative, region,
}
use blitzy_open_cobol.Inspect.Scan.{InspectType, scan, scan_up, scan_down}
use blitzy_open_cobol.Inspect.Convert.{translate, inspect_converting-translate}
use blitzy_open_cobol.Inspect.Count.{IsCount}
use blitzy_open_cobol.Inspect.Marks.{marked_bytes}
use blitzy_open_cobol.Inspect.Tally.{IsRegion, inspect_common-IsCount}

abbrev banana : Field
banana = alphanumeric_field (b'b' ∷ b'a' ∷ b'n' ∷ b'a' ∷ b'n' ∷ b'a' ∷ [])

abbrev tallying : InspectState
tallying = record {
  inspect_var = banana;
  inspect_sign = pos 0;
  inspect_replacing = false;
  inspect_data = banana.data_bytes;
  inspect_mark = replicate 6 none;
  inspect_start = 0;
  inspect_end = 6;
  exception = none;
}

-- Matches do not overlap.
one_ana : (inspect_common tallying false [] (b'a' ∷ b'n' ∷ b'a' ∷ []) InspectType.inspect_all).1 ≡ 1
unfolding inspect_common scan scan_up copy_at alloc_figurative
one_ana = refl

-- REPLACING ALL "an" BY "AN" AFTER "b" BEFORE "x"; the text has no "x"
replaced :
    let s =
      inspect_before
        (inspect_after (begin (inspect_init ascii_module banana true)) (b'b' ∷ []))
        (b'x' ∷ []) in
    let (t, n) =
      inspect_common s false (b'A' ∷ b'N' ∷ []) (b'a' ∷ b'n' ∷ []) InspectType.inspect_all in
    (inspect_finish ascii_module t).data_bytes ≡ b'b' ∷ b'A' ∷ b'N' ∷ b'A' ∷ b'N' ∷ b'a' ∷ []
unfolding inspect_init inspect_before inspect_after inspect_common inspect_finish scan scan_up
    copy_at find_first put_marks alloc_figurative get_sign put_sign
replaced = refl

trailing : (inspect_common tallying false [] (b'n' ∷ b'a' ∷ []) InspectType.inspect_trailing).1 ≡ 2
unfolding inspect_common scan scan_down copy_at alloc_figurative
trailing = refl

tallying-IsRegion : IsRegion tallying
tallying-IsRegion = record { a_mark_each = refl; ordered = omega arith; inside = omega arith }

inspect_common-IsCount_example :
    let (after, n) =
      inspect_common tallying false [] (b'n' ∷ b'a' ∷ []) InspectType.inspect_trailing in
    IsCount
      (b'n' ∷ b'a' ∷ [])
      InspectType.inspect_trailing
      (region tallying tallying.inspect_data)
      n
    × (marked_bytes after.inspect_mark ≡ marked_bytes tallying.inspect_mark + n * 2)
inspect_common-IsCount_example =
    inspect_common-IsCount tallying tallying-IsRegion false [] (b'n' ∷ b'a' ∷ [])
      InspectType.inspect_trailing refl (omega arith) refl

inspect_converting-translate_example :
    (inspect_converting tallying (b'a' ∷ b'b' ∷ []) (b'o' ∷ [])).inspect_data
    ≡ copy_at tallying.inspect_data 0
        (map (translate (b'a' ∷ b'b' ∷ []) (b'o' ∷ []) 0) (region tallying tallying.inspect_data))
inspect_converting-translate_example =
    inspect_converting-translate tallying (b'a' ∷ b'b' ∷ []) (b'o' ∷ []) refl (omega arith)
