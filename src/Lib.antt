-- ===== src/Lib.antt =====
-- A model of the run-time library libcob of the OpenCOBOL compiler: the part that gives COBOL
-- data its meaning. A compiled program holds its data as fields, byte strings with an attribute
-- record, and calls the library for signs, arithmetic, moves, the string statements and files.
--
-- The files, by the part of libcob/ that they model:
--   Field: cob_field, cob_field_attr and the field macros of libcob/common.h. A byte is a natural
--     number below 256 and the memory of a field is a list of bytes; a pointer into a field is an
--     index. Each function takes the fields that it reads and returns those that it writes.
--   Field.Sign: cob_real_get_sign, cob_real_put_sign and the EBCDIC helpers of libcob/common.c.
--   Display: display_add_int, display_sub_int and cob_display_add_int of libcob/numeric.c, the
--     fast path of ADD and SUBTRACT on DISPLAY fields. The loops that go down from the last digit
--     are recursions on the reversed digits.
--   Decimal: cob_decimal of libcob/numeric.c: shift_decimal, align_decimal, cob_decimal_add,
--     _sub, _mul, _div, _cmp, and the rounding of cob_decimal_get_field. Decimal.Packed is
--     cob_decimal_set_packed, with the functions of GMP on unsigned numbers in the record GmpUi.
--   Dates: the date functions of libcob/intrinsic.c. The loop over the years runs on fuel, days /
--     365 + 1 turns, which Dates.Years shows to be enough.
--   StringVerb: the STRING statement, cob_string_init, cob_string_delimited, cob_string_append
--     and cob_string_finish of libcob/strings.c, with the order of the calls that cb_emit_string
--     of cobc/typeck.c emits.
--   Inspect: the INSPECT statement, the cob_inspect_ functions and inspect_common of
--     libcob/strings.c. The two scans run on fuel, one turn for each place at which the pattern
--     can stand; each turn moves on by one byte at least. Count says what a phrase of TALLYING
--     counts by the bytes alone.
--   Unstring: the UNSTRING statement, the cob_unstring_ functions of libcob/strings.c. DELIMITED
--     BY ALL skips on fuel, one turn for each byte that is left.
--   Compare: common_cmpc, common_cmps, cob_cmp_char, cob_cmp_all and cob_cmp_alnum of
--     libcob/common.c. The loop of cob_cmp_all runs on fuel, one turn for each byte of the field,
--     which is enough since the repeated field is not empty.
--   Move: store_common_region and cob_move_display_to_display of libcob/move.c.
--   Files: cob_file and save_status of libcob/fileio.c. Verbs has the statements, cob_open to
--     cob_delete, over the table of functions of the organization; Plain has cob_file_open and
--     cob_file_close; Names has the file name mapping of cob_open; Relative has the functions of
--     relative_funcs; Stdio has the streams of C. An outcome of none stands for undefined
--     behaviour.
--   Files.Relative: a record is a slot of the file, a size_t of eight bytes with the low byte
--     first and the bytes of the record. The loops of relative_start and relative_read_next run
--     on fuel, more turns than the file has bytes, which Defined shows to be enough for any file,
--     in START for the relations EQUAL, LESS, NOT GREATER, GREATER and NOT LESS; NotEqual is
--     about the relation NOT EQUAL. Table is the contract of the access by key.
--   Files.Sequential: the functions of sequential_funcs. Append has the stream at the end of its
--     file, Runs the bytes of a file of records.
--   Files.LineSequential: the functions of lineseq_funcs. The loop of lineseq_read runs on fuel,
--     one more turn than the file has bytes, which Bounds shows to be enough for any file.
--   Files.Safety: the statements of a program in any order, over an interface that the functions
--     of an organization have to fill. Locked is about the statements after CLOSE WITH LOCK in
--     the organizations other than INDEXED.
--   Base: lists, integers, digits and nibbles that the parts share.
--
-- The integers of GMP are a parameter: the record Gmp holds the functions of GMP that numeric.c
-- calls, with what the manual of GMP says of each as a law. Static variables of the library
-- (cob_exception_code, the current module) are arguments and results. C leaves the overflow of
-- signed integers undefined. In cob_display_add_int, where the amount is a long long that is
-- multiplied by ten for each decimal place, the model has none for it; the other long long and
-- int variables are integers without a bound, which agree as long as C defines the result. The
-- operating system is a parameter too: the record Host holds the answers of stat, fopen, fcntl
-- and getenv.
--
-- Not modelled: floating point fields, powers, indexed files, LINAGE, record locks, the sort,
-- screens, dynamic calls, the operating system, and the compiler cobc.
mod Base
pub mod Field
pub mod Display
pub mod Decimal
pub mod Dates
pub mod StringVerb
pub mod Inspect
pub mod Unstring
pub mod Compare
pub mod Move
pub mod Files
mod Samples
