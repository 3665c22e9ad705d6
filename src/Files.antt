-- ===== src/Files.antt =====
-- Files: `cob_file` of libcob/common.h with its #defines, and `save_status` and the table of
-- organizations of libcob/fileio.c. The library is built for Linux with no external file handler and
-- no ISAM library. Files with a LINAGE clause are left out.
pub mod Relative
pub mod Sequential
pub mod LineSequential
pub mod Stdio
pub mod Plain
pub mod Names
pub mod Verbs
mod Examples
pub mod Safety
use blitzy_open_cobol.Base.{ℕ, ◌+◌, ◌/◌, ◌%◌, ◌==◌, Bool, Option, none, some, List, if◌then◌else◌}
use blitzy_open_cobol.Base.Digits.{i2d}
use blitzy_open_cobol.Base.Int.{ℤ}
use blitzy_open_cobol.Files.Stdio.{Stream}

-- The ORGANIZATION, the ACCESS MODE, and the modes of OPEN.
abbrev pub org_sequential : ℕ
org_sequential = 0

abbrev pub org_line_sequential : ℕ
org_line_sequential = 1

abbrev pub org_relative : ℕ
org_relative = 2

abbrev pub access_sequential : ℕ
access_sequential = 1

abbrev pub access_random : ℕ
access_random = 3

abbrev pub open_closed : ℕ
open_closed = 0

abbrev pub open_input : ℕ
open_input = 1

abbrev pub open_output : ℕ
open_output = 2

abbrev pub open_i_o : ℕ
open_i_o = 3

abbrev pub open_extend : ℕ
open_extend = 4

abbrev pub open_locked : ℕ
open_locked = 5

-- The options of CLOSE and the relations of START.
abbrev pub close_normal : ℕ
close_normal = 0

abbrev pub close_lock : ℕ
close_lock = 1

abbrev pub close_no_rewind : ℕ
close_no_rewind = 2

abbrev pub cond_eq : ℕ
cond_eq = 1

abbrev pub cond_lt : ℕ
cond_lt = 2

abbrev pub cond_le : ℕ
cond_le = 3

abbrev pub cond_gt : ℕ
cond_gt = 4

abbrev pub cond_ge : ℕ
cond_ge = 5

abbrev pub cond_ne : ℕ
cond_ne = 6

-- The exceptions of the statuses by their first digit.
pub data IoException : Type 0 where
  i_o_at_end i_o_invalid_key i_o_permanent_error i_o_logic_error : IoException
  i_o_record_operation i_o_file_sharing i_o i_o_imp : IoException

-- A field of a file that the code reads with cob_get_int is the number that it reads:
-- `record_size` of RECORD VARYING and `relative_key`, keys[0].field. `size` and `record_data` are
-- the record; `stream` is the `FILE *`, and none before fopen and after fclose, which leaves its
-- content `on_disk`.
pub record CobFile : Type 0 where
  pub organization : ℕ
  pub access_mode : ℕ
  pub open_mode : ℕ
  pub last_open_mode : ℕ
  pub special : ℕ
  pub flag_optional : Bool
  pub flag_nonexistent : Bool
  pub flag_end_of_file : Bool
  pub flag_begin_of_file : Bool
  pub flag_first_read : ℕ
  pub flag_read_done : Bool
  pub flag_needs_nl : Bool
  pub record_min : ℕ
  pub record_max : ℕ
  pub size : ℕ
  pub record_data : List ℕ
  pub record_size : Option ℤ
  pub relative_key : Option ℤ
  pub file_status : ℕ × ℕ
  pub exception : Option IoException
  pub stream : Option Stream
  pub on_disk : Option Stream

-- What a function of the table returns: the file, and its int. `none` is undefined behaviour, a
-- use of a closed stream or of a null pointer.
abbrev pub Outcome : Type 0
Outcome = Option (CobFile × ℕ)

-- Storing into a field and adding to it, as cob_set_int and cob_add_int do: the number that is
-- read afterwards, and none where the sum does not fit.
pub record KeyField : Type 0 where
  pub set_int : ℤ → ℤ
  pub add_int : ℤ → ℤ → Option ℤ

-- `struct cob_fileio_funcs`: the functions of one organization.
pub record FileioFuncs : Type 0 where
  pub open_file : CobFile → List ℕ → ℕ → ℕ → Outcome
  pub close : CobFile → ℕ → Outcome
  pub start : CobFile → ℕ → Outcome
  pub read : CobFile → Outcome
  pub read_next : CobFile → Outcome
  pub write : CobFile → ℕ → Outcome
  pub rewrite : CobFile → ℕ → Outcome
  pub fdelete : CobFile → Outcome

-- The table `status_exception`.
unfoldable pub status_exception : ℕ → Option IoException
status_exception k =
    if k == 0
    then none
    else if k == 1
    then some IoException.i_o_at_end
    else if k == 2
    then some IoException.i_o_invalid_key
    else if k == 3
    then some IoException.i_o_permanent_error
    else if k == 4
    then some IoException.i_o_logic_error
    else if k == 5
    then some IoException.i_o_record_operation
    else if k == 6
    then some IoException.i_o_file_sharing
    else if k == 9
    then some IoException.i_o_imp
    else some IoException.i_o

-- `save_status`; the field of FILE STATUS gets the two bytes of `file_status`.
unfoldable pub save_status : CobFile → ℕ → CobFile
unfolding status_exception
save_status f status =
    if status == 0 then record f { file_status = (b'0', b'0'); exception = none } else record f {
      file_status = (i2d (status / 10), i2d (status % 10));
      exception = if status == 52 then f.exception else status_exception (status / 10);
    }

-- A table function's result, handed on to save_status.
unfoldable pub saved : Outcome → Option CobFile
unfolding save_status
saved none = none
saved (some (f, status)) = some (save_status f status)
