-- ===== src/Xlog.antt =====
-- libxlog/xlog.c: the log functions that MTK's libraries link against.
pub mod Stubs
pub mod Whole
use android_device_gionee_p.Common.{ℕ, List, [], ◌∷◌, Option, none, some}
use android_device_gionee_p.Common.Int.{ℤ, pos}
use android_device_gionee_p.Format.{Text}

-- `struct xlog_record`
pub record XlogRecord : Type 0 where
  pub tag_str : Text
  pub fmt_str : Text
  pub prio : ℤ

-- What the logger is given: the record, and the variable arguments as they came.
pub record Line (Arg : Type 0) : Type 0 where
  pub rec : XlogRecord
  pub args : List Arg

-- `__xlog_buf_printf`: the number of the buffer is not used. The log is newest first.
pub xlog_buf_printf :
    {Arg : Type 0} → ℤ → XlogRecord → List Arg → List (Line Arg) → ℤ × List (Line Arg)
xlog_buf_printf bufid rec args log = (pos 0, record { rec = rec; args = args } ∷ log)
