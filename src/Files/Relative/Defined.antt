-- ===== src/Files/Relative/Defined.antt =====
-- The functions of a RELATIVE file are defined on any file that has a stream and a key field: they
-- end, and leave the stream, the key field and the modes of the file in place.
use blitzy_open_cobol.Base.{
  ℕ, ◌+◌, ◌≡◌, inl, inr, true, some, ◌==◌, arith, Bool-cases, Option-cases,
}
use blitzy_open_cobol.Base.Int.{ℤ}
use blitzy_open_cobol.Files.{CobFile, KeyField, Outcome, access_sequential}
use blitzy_open_cobol.Files.Stdio.{Stream}
use blitzy_open_cobol.Files.Relative.{
  write_slot, write_next, rewrite_slot, rewrite_last, delete_slot, read_slot, next_slot,
  relative_start, relative_read, relative_read_next, relative_write, relative_rewrite,
  relative_delete,
}
use blitzy_open_cobol.Files.Relative.Keeps.{
  has, Keeps, IsDefined, IsRelation, delete_slot-Keeps, rewrite_slot-Keeps, rewrite_last-Keeps,
  read_slot-Keeps, write_slot-Keeps, write_next-Keeps,
}
use blitzy_open_cobol.Files.Relative.Turns.{start_slot-Defined, next_scan-Defined}

-- The functions of the table.
module _ (keys : KeyField) (f : CobFile) (stream : has f.stream ≡ true)
    (key : has f.relative_key ≡ true) where
  pub relative_start-Defined :
      (cond : ℕ) → IsRelation cond → IsDefined f (relative_start keys f cond)
  relative_start-Defined cond relation = elim (Option-cases f.stream) [
    | inl none_there ↦ absurd (ground (arith, none_there))
    | inr (s, there) ↦ elim (Option-cases f.relative_key) [
      | inl no_key ↦ absurd (ground (arith, no_key))
      | inr (k, at) ↦
          let (g, status, returns, keeps) = start_slot-Defined keys cond f s k relation key in
          (g, status, unfold relative_start in ground (arith, there, at, returns), keeps)
    ]
  ]

  pub relative_read_next-Defined : IsDefined f (relative_read_next keys f)
  relative_read_next-Defined = elim (Option-cases f.stream) [
    | inl none_there ↦ absurd (ground (arith, none_there))
    | inr (s, there) ↦
        let (g, status, returns, keeps) =
          next_scan-Defined keys (s.size + 1) f s (omega arith) (omega arith) in
        (g, status, unfold relative_read_next next_slot in ground (arith, there, returns), keeps)
  ]

  -- The functions that look at one slot: their result is there, and keeps the file's modes.
  one_slot :
      (run : Stream → ℤ → CobFile × ℕ) (result : Outcome)
      → ((s : Stream) (k : ℤ) → f.stream ≡ some s → Keeps f (run s k).0)
      → ((s : Stream) (k : ℤ)
          → f.stream ≡ some s
          → f.relative_key ≡ some k
          → result ≡ some (run s k))
      → IsDefined f result
  one_slot run result keeps runs = elim (Option-cases f.stream) [
    | inl none_there ↦ absurd (ground (arith, none_there))
    | inr (s, there) ↦ elim (Option-cases f.relative_key) [
      | inl no_key ↦ absurd (ground (arith, no_key))
      | inr (k, at) ↦ ((run s k).0, (run s k).1, runs s k there at, keeps s k there)
    ]
  ]

  pub relative_read-Defined : IsDefined f (relative_read f)
  relative_read-Defined =
      one_slot (read_slot f) _ (λ s k there. read_slot-Keeps f s k)
        (λ s k there at. unfold relative_read in ground (arith, there, at))

  pub relative_delete-Defined : IsDefined f (relative_delete f)
  relative_delete-Defined =
      one_slot (delete_slot f) _ (λ s k there. delete_slot-Keeps f s k)
        (λ s k there at. unfold relative_delete in ground (arith, there, at))

  pub relative_write-Defined : (opt : ℕ) → IsDefined f (relative_write keys f opt)
  relative_write-Defined opt = elim (Bool-cases (f.access_mode == access_sequential)) [
    | inl in_order ↦
        one_slot (λ s k. write_next keys f s) _ (λ s k there. write_next-Keeps keys f s)
          (λ s k there at. unfold relative_write in ground (arith, there, in_order))
    | inr by_key ↦
        one_slot (write_slot f) _ (λ s k there. write_slot-Keeps f s k there)
          (λ s k there at. unfold relative_write in ground (arith, there, at, by_key))
  ]

  pub relative_rewrite-Defined : (opt : ℕ) → IsDefined f (relative_rewrite f opt)
  relative_rewrite-Defined opt = elim (Bool-cases (f.access_mode == access_sequential)) [
    | inl in_order ↦
        one_slot (λ s k. rewrite_last f s) _ (λ s k there. rewrite_last-Keeps f s)
          (λ s k there at. unfold relative_rewrite in ground (arith, there, in_order))
    | inr by_key ↦
        one_slot (rewrite_slot f) _ (λ s k there. rewrite_slot-Keeps f s k)
          (λ s k there at. unfold relative_rewrite in ground (arith, there, at, by_key))
  ]
