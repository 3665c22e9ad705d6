-- ===== src/Files/Stdio.antt =====
-- The `FILE *` of C's stdio over a regular file, as libcob/fileio.c uses it: fread and fwrite of
-- one item, fseek and ftell. A byte that was never written reads as zero. A stream whose device is
-- out of order fails each transfer.
pub mod Access
pub mod Words
use blitzy_open_cobol.Base.{
  ℕ, zero, suc, ◌+◌, ◌-◌, Bool, true, false, ◌&&◌, Option, none, some, List, [], ◌∷◌, length,
  get_or, min, max, ◌==◌, ltb, leb, if◌then◌else◌,
}
use blitzy_open_cobol.Base.Int.{ℤ, pos, ◌+ℤ◌, is_negative, pos_part}

pub record Stream : Type 0 where
  pub byte : ℕ → ℕ
  pub size : ℕ
  pub position : ℕ
  pub readable : Bool
  pub writable : Bool
  pub append : Bool
  pub broken : Bool
  pub ferror : Bool

-- The `n` bytes from `i` on.
unfoldable pub bytes_at : (ℕ → ℕ) → ℕ → ℕ → List ℕ
bytes_at byte i zero = []
bytes_at byte i (suc n) = byte i ∷ bytes_at byte (suc i) n

-- The content with `bytes` written from `i` on; what lies between the end and `i` becomes zero.
unfoldable pub write_at : Stream → ℕ → List ℕ → ℕ → ℕ
write_at s i bytes j =
    if leb i j && ltb j (i + length bytes)
    then get_or bytes (j - i) 0
    else if ltb j s.size
    then s.byte j
    else 0

-- `fread (buf, n, 1, s)`: the item, if there is a whole one.
unfoldable pub fread : ℕ → Stream → Option (List ℕ) × Stream
unfolding bytes_at
fread n s =
    if s.readable && (if s.broken then false else true)
    then (if ltb 0 n && leb (s.position + n) s.size
        then (some (bytes_at s.byte s.position n), record s { position = s.position + n })
        else (none, record s { position = max s.position s.size }))
    else (none, record s { ferror = true })

-- `fread (buf, 1, n, s)`: as many of `n` bytes as there are.
unfoldable pub fread_some : ℕ → Stream → List ℕ × Stream
unfolding bytes_at
fread_some n s =
    let count = min n (s.size - s.position) in
    if n == 0
    then ([], s)
    else if s.readable && (if s.broken then false else true)
    then (bytes_at s.byte s.position count, record s { position = s.position + count })
    else ([], record s { ferror = true })

-- `fwrite (bytes, size of bytes, 1, s) == 1`
unfoldable pub fwrite : List ℕ → Stream → Bool × Stream
unfolding write_at
fwrite bytes s =
    let i = if s.append then s.size else s.position in
    if s.writable && (if s.broken then false else true)
    then (
      ltb 0 (length bytes),
      record s {
        byte = write_at s i bytes;
        size = if ltb 0 (length bytes) then max s.size (i + length bytes) else s.size;
        position = i + length bytes;
      },
    )
    else (false, record s { ferror = true })

-- `fseek (s, off, SEEK_SET)`, which fails in front of the file.
unfoldable pub fseek_set : ℤ → Stream → Option Stream
fseek_set off s = if is_negative off then none else some (record s { position = pos_part off })

-- `fseek (s, off, SEEK_CUR)` where the result is not looked at.
unfoldable pub fseek_cur : ℤ → Stream → Stream
fseek_cur off s =
    let target = pos s.position +ℤ off in
    if is_negative target then s else record s { position = pos_part target }
