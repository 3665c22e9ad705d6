-- ===== src/Compare/Examples.antt =====
-- Runs of the comparisons, and the theorems about them applied.
use blitzy_open_cobol.Base.{◌≡◌, refl, arith, [], ◌∷◌, length}
use blitzy_open_cobol.Base.Int.{pos, negsuc, neg_ℤ}
use blitzy_open_cobol.Field.{Field}
use blitzy_open_cobol.Field.Sign.{get_sign, put_sign}
use blitzy_open_cobol.Samples.{ascii_module, alphanumeric_field}
use blitzy_open_cobol.Inspect.{alloc_figurative}
use blitzy_open_cobol.Compare.{cmp_alnum, cmp_all, cmp_bytes, common_cmps, common_cmpc, all_loop}
use blitzy_open_cobol.Compare.Padding.{compare_padded, shown_bytes, cmp_alnum-compare_padded}
use blitzy_open_cobol.Compare.Repeat.{cmp_all-alloc_figurative}

abbrev short : Field
short = alphanumeric_field (b'A' ∷ b'B' ∷ [])

abbrev padded : Field
padded = alphanumeric_field (b'A' ∷ b'B' ∷ b' ' ∷ [])

abbrev longer : Field
longer = alphanumeric_field (b'A' ∷ b'B' ∷ b'C' ∷ [])

abbrev repeated : Field
repeated = alphanumeric_field (b'A' ∷ b'B' ∷ b'A' ∷ b'B' ∷ b'A' ∷ [])

spaces_do_not_count : (cmp_alnum ascii_module short padded).0 ≡ pos 0
unfolding cmp_alnum cmp_bytes common_cmps common_cmpc get_sign put_sign neg_ℤ
spaces_do_not_count = refl

below : (cmp_alnum ascii_module short longer).0 ≡ negsuc 34
unfolding cmp_alnum cmp_bytes common_cmps common_cmpc get_sign put_sign neg_ℤ
below = refl

all_of_it : (cmp_all ascii_module repeated short).0 ≡ pos 0
unfolding cmp_all all_loop common_cmps get_sign put_sign
all_of_it = refl

cmp_alnum-compare_padded_example :
    (cmp_alnum ascii_module short longer).0
    ≡ compare_padded ascii_module.collating_sequence
        (shown_bytes ascii_module short)
        (shown_bytes ascii_module longer)
cmp_alnum-compare_padded_example = cmp_alnum-compare_padded ascii_module short longer

cmp_all-alloc_figurative_example :
    (cmp_all ascii_module repeated short).0
    ≡ common_cmps ascii_module.collating_sequence
        (shown_bytes ascii_module repeated)
        (alloc_figurative short.data_bytes short.data_bytes
          (length (shown_bytes ascii_module repeated)))
        (length (shown_bytes ascii_module repeated))
cmp_all-alloc_figurative_example =
    cmp_all-alloc_figurative ascii_module repeated short (omega arith)
