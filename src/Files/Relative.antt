-- ===== src/Files/Relative.antt =====
-- RELATIVE files of libcob/fileio.c. Each record of the file is a slot: a `size_t`, which is 0
-- where there is no record, and `record_max` bytes.
pub mod Slots
pub mod Transfers
pub mod Changes
pub mod Seek
pub mod Random
pub mod Forward
pub mod ReadNext
pub mod Restart
pub mod Keeps
pub mod Turns
pub mod Defined
pub mod Table
pub mod Held
pub mod Refinement
pub mod Lost
pub mod NotEqual
use blitzy_open_cobol.Base.{
  ℕ, zero, suc, ◌+◌, ◌*◌, ◌/◌, ◌==◌, Bool, true, false, ◌&&◌, ◌||◌, Option, none, some, List, ltb,
  if◌then◌else◌,
}
use blitzy_open_cobol.Base.Int.{ℤ, pos, negsuc, ◌+ℤ◌, ◌-ℤ◌, ◌*ℤ◌, abs, neg_ℤ, is_negative, pos_part}
use blitzy_open_cobol.Files.{
  CobFile, FileioFuncs, KeyField, Outcome, access_sequential, cond_eq, cond_lt, cond_le, cond_gt,
  cond_ge,
}
use blitzy_open_cobol.Files.Plain.{Host, cob_file_open, cob_file_close}
use blitzy_open_cobol.Files.Stdio.{Stream, fread, fwrite, fseek_set, fseek_cur}
use blitzy_open_cobol.Files.Stdio.Words.{le_bytes, le_value, word_size}

-- `f->record_max + sizeof (f->record->size)`
abbrev pub slot_size : CobFile → ℕ
slot_size f = f.record_max + word_size

-- `kindex * relsize`: the place of a slot, the first slot being 0.
abbrev pub slot_offset : CobFile → ℤ → ℤ
slot_offset f kindex = kindex *ℤ pos (slot_size f)

-- fread into `size`: the number that is read, if all its bytes are there.
unfoldable pub fread_size : Stream → Option ℕ × Stream
fread_size s =
    let (got, s') = fread word_size s in
    (elim got [ none ↦ none | some bytes ↦ some (le_value bytes) ], s')

-- The common beginning: fseek to a slot and fread its size.
unfoldable pub seek_size : CobFile → ℤ → Stream → Option ℕ × Stream
seek_size f kindex s = elim (fseek_set (slot_offset f kindex) s) [
  | none ↦ (none, s)
  | some s' ↦ fread_size s'
]

abbrev pub on_stream : CobFile → Stream → CobFile
on_stream f s = record f { stream = some s }

-- fwrite of the record's bytes behind its size, and the status.
unfoldable pub put_record : CobFile → Stream → CobFile × ℕ
put_record f s =
    let (done, s') = fwrite f.record_data s in
    elim done [ true ↦ (on_stream f s', 0) | false ↦ (on_stream f s', 30) ]

-- fread of the record's bytes.
unfoldable pub get_record : CobFile → Stream → CobFile × ℕ
get_record f s =
    let (got, s') = fread f.record_max s in
    elim got [
      | none ↦ (on_stream f s', 30)
      | some bytes ↦ (record f { record_data = bytes; stream = some s' }, 0)
    ]

-- `fseek (f->file, - sizeof (size_t), SEEK_CUR)`
abbrev pub back_one_word : Stream → Stream
back_one_word s = fseek_cur (negsuc 7) s

-- `relative_delete`, on the open stream and the number in the key field.
unfoldable pub delete_slot : CobFile → Stream → ℤ → CobFile × ℕ
delete_slot f s key =
    let (got, s') = seek_size f (key -ℤ pos 1) s in
    elim got [
      | none ↦ (on_stream f s', 23)
      | some n ↦
          let (done, s'') = fwrite (le_bytes word_size 0) (back_one_word s') in
          elim done [
            | false ↦ (record f { size = 0; stream = some s'' }, 30)
            | true ↦ (record f { size = 0; stream = some (fseek_cur (pos f.record_max) s'') }, 0)
          ]
    ]

-- `relative_rewrite`; with sequential access the record is the one that was read last.
unfoldable pub rewrite_slot : CobFile → Stream → ℤ → CobFile × ℕ
rewrite_slot f s key =
    let (got, s') = seek_size f (key -ℤ pos 1) s in
    elim got [ none ↦ (on_stream f s', 23) | some n ↦ put_record (record f { size = n }) s' ]

unfoldable pub rewrite_last : CobFile → Stream → CobFile × ℕ
rewrite_last f s = put_record f (fseek_cur (neg_ℤ (pos f.record_max)) s)

-- `relative_read`
unfoldable pub read_slot : CobFile → Stream → ℤ → CobFile × ℕ
read_slot f s key =
    let (got, s') = seek_size f (key -ℤ pos 1) s in
    elim got [
      | none ↦ (on_stream f s', 23)
      | some n ↦
          if n == 0
          then (record f { size = 0; stream = some (back_one_word s') }, 23)
          else get_record (record f { size = n }) s'
    ]

-- The two writes of `relative_write`.
unfoldable pub put_slot : CobFile → Stream → CobFile × ℕ
put_slot f s =
    let (done, s') = fwrite (le_bytes word_size f.size) s in
    elim done [ false ↦ (on_stream f s', 30) | true ↦ put_record f s' ]

-- `relative_write` from the look at the slot at which the stream stands.
unfoldable pub write_here : CobFile → Stream → CobFile × ℕ
write_here f s =
    let (got, s') = fread_size s in
    elim got [
      | some n ↦
          if ltb 0 n then (on_stream f (back_one_word s'), 22) else put_slot f (back_one_word s')
      | none ↦ put_slot f (record s' { position = s.position })
    ]

unfoldable pub write_slot : CobFile → Stream → ℤ → CobFile × ℕ
write_slot f s key = elim (fseek_set (slot_offset f (key -ℤ pos 1)) s) [
  | none ↦ (f, 21)
  | some s' ↦ write_here f s'
]

-- cob_set_int on a key field, where there is one.
abbrev keys_set : KeyField → ℤ → Option ℤ → Option ℤ
keys_set keys n none = none
keys_set keys n (some _) = some (keys.set_int n)

-- With sequential access the record goes to where the stream stands, and its number to the key.
unfoldable pub write_next : KeyField → CobFile → Stream → CobFile × ℕ
write_next keys f s =
    let (f', status) = write_here f s in
    let number = (s.position + slot_size f) / slot_size f in
    if status == 0
    then (record f' { relative_key = keys_set keys (pos number) f.relative_key }, 0)
    else (f', status)

-- The switch of `relative_start` behind a slot without a record; COB_EQ does not come here. There is
-- no case for COB_NE, which leaves the index as it is.
abbrev pub next_index : ℕ → ℤ → ℤ
next_index cond kindex =
    if cond == cond_lt || cond == cond_le
    then kindex -ℤ pos 1
    else if cond == cond_gt || cond == cond_ge
    then kindex +ℤ pos 1
    else kindex

-- The loop of `relative_start`. `none` means that the fuel ran out.
unfoldable pub start_scan : KeyField → ℕ → ℕ → CobFile → Stream → ℤ → Outcome
start_scan keys zero cond f s kindex = none
start_scan keys (suc fuel) cond f s kindex =
    let (got, s') = seek_size f kindex s in
    elim got [
      | none ↦ some (on_stream f s', 23)
      | some n ↦ elim (ltb 0 n) [
        | true ↦ some (
          record f {
            size = n;
            relative_key = some (keys.set_int (kindex +ℤ pos 1));
            stream = some (back_one_word s');
          },
          0,
        )
        | false ↦ elim (cond == cond_eq) [
          | true ↦ some (record f { size = n; stream = some s' }, 23)
          | false ↦ start_scan keys fuel cond (record f { size = n }) s' (next_index cond kindex)
        ]
      ]
    ]

-- `relative_start`. A slot takes one byte at least, so with the relations EQUAL to NOT LESS no more
-- turns are needed than the file has bytes and the key has numbers below it.
unfoldable pub start_slot : KeyField → ℕ → CobFile → Stream → ℤ → Outcome
start_slot keys cond f s key =
    let kindex = key -ℤ pos 1 in
    let first =
      if cond == cond_lt
      then kindex -ℤ pos 1
      else if cond == cond_gt
      then kindex +ℤ pos 1
      else kindex in
    start_scan keys (s.size + abs key + 2) cond f s first

-- The key field of `relative_read_next`: the number of the slot whose size was read, or none where
-- it does not fit.
unfoldable pub next_key : KeyField → CobFile → Stream → ℤ × Bool
next_key keys f s =
    let number = s.position / slot_size f + 1 in
    if ltb 0 f.flag_first_read
    then (keys.set_int (pos 1), true)
    else elim (keys.add_int (keys.set_int (pos 0)) (pos number)) [
      | none ↦ (keys.set_int (pos 0), false)
      | some key ↦ (key, true)
    ]

unfoldable pub with_next_key : KeyField → CobFile → Stream → CobFile × Bool
with_next_key keys f s = elim f.relative_key [
  | none ↦ (f, true)
  | some _ ↦
      let (key, fits) = next_key keys f s in
      (
        record f {
          relative_key = some key;
          flag_first_read = if ltb 0 f.flag_first_read then 0 else f.flag_first_read;
        },
        fits,
      )
]

-- The loop of `relative_read_next`; `none` means that the fuel ran out.
unfoldable pub next_scan : KeyField → ℕ → CobFile → Stream → Outcome
next_scan keys zero f s = none
next_scan keys (suc fuel) f s =
    let (got, s') = fread_size s in
    elim got [
      | none ↦ some (on_stream f s', if s'.ferror then 30 else 10)
      | some n ↦
          let (f', fits) = with_next_key keys (record f { size = n }) s' in
          elim fits [
            | false ↦ some (on_stream f' (back_one_word s'), 14)
            | true ↦ elim (ltb 0 n) [
              | true ↦ some (get_record f' s')
              | false ↦ next_scan keys fuel f' (fseek_cur (pos f.record_max) s')
            ]
          ]
    ]

-- `relative_read_next`: each turn goes on by a slot, so there are no more turns than bytes left.
unfoldable pub next_slot : KeyField → CobFile → Stream → Outcome
next_slot keys f s = next_scan keys (s.size + 1) f s

-- The functions of the table `relative_funcs`, where the stream and the key must be there.
abbrev with_stream : CobFile → (Stream → Outcome) → Outcome
with_stream f k = elim f.stream [ none ↦ none | some s ↦ k s ]

abbrev with_key : CobFile → (ℤ → Outcome) → Outcome
with_key f k = elim f.relative_key [ none ↦ none | some key ↦ k key ]

module _ (keys : KeyField) where
  unfoldable pub relative_start : CobFile → ℕ → Outcome
  relative_start f cond = with_stream f (λ s. with_key f (λ key. start_slot keys cond f s key))

  unfoldable pub relative_read_next : CobFile → Outcome
  relative_read_next f = with_stream f (λ s. next_slot keys f s)

  unfoldable pub relative_write : CobFile → ℕ → Outcome
  relative_write f opt = with_stream f (λ s.
      if f.access_mode == access_sequential
      then some (write_next keys f s)
      else with_key f (λ key. some (write_slot f s key)))

unfoldable pub relative_read : CobFile → Outcome
relative_read f = with_stream f (λ s. with_key f (λ key. some (read_slot f s key)))

unfoldable pub relative_rewrite : CobFile → ℕ → Outcome
relative_rewrite f opt = with_stream f (λ s.
    if f.access_mode == access_sequential
    then some (rewrite_last f s)
    else with_key f (λ key. some (rewrite_slot f s key)))

unfoldable pub relative_delete : CobFile → Outcome
relative_delete f = with_stream f (λ s. with_key f (λ key. some (delete_slot f s key)))

-- The table `relative_funcs`.
abbrev pub relative_funcs : Host → KeyField → FileioFuncs
relative_funcs host keys = record {
  open_file = cob_file_open host;
  close = cob_file_close;
  start = relative_start keys;
  read = relative_read;
  read_next = relative_read_next keys;
  write = relative_write keys;
  rewrite = relative_rewrite;
  fdelete = relative_delete;
}
