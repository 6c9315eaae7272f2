-- ===== src/Psql/Command.antt =====
-- src/psql: iSQLCommand (include/iSQLCommand.h, src/iSQLCommand.cpp). Kinds and options are the numbers
-- of their enumerations.
use natc.Base.{ℕ, Bool, Bytes}
use natc.Base.Int.{ℤ}

pub record Command : Type 0 where
  pub command_kind : ℕ
  pub help_kind : ℕ
  pub option_kind : ℕ
  pub admin_option : ℕ
  pub path_type : ℕ
  pub query : Bytes
  pub command_str : Bytes
  pub shell_command : Bytes
  pub on_off : Bool
  pub is_sysdba : Bool
  pub file_name : Bytes
  pub user_name : Bytes
  pub passwd : Bytes
  pub table_name : Bytes
  pub colsize : ℤ
  pub linesize : ℤ
  pub pagesize : ℤ
  pub history_no : ℤ
  pub timescale : ℕ
  pub old_str : Bytes
  pub new_str : Bytes
  pub change_no : ℤ
  pub change_kind : ℕ
  pub proc_name : Bytes
  pub host_var_name : Bytes
  pub option_str : Bytes

-- `setAll(src, des)`: the destination keeps its administration option, path type, column size,
-- administrator mode and option string.
abbrev pub set_all : Command → Command → Command
set_all src des = record des {
  command_kind = src.command_kind;
  help_kind = src.help_kind;
  option_kind = src.option_kind;
  query = src.query;
  command_str = src.command_str;
  shell_command = src.shell_command;
  on_off = src.on_off;
  file_name = src.file_name;
  user_name = src.user_name;
  passwd = src.passwd;
  table_name = src.table_name;
  linesize = src.linesize;
  pagesize = src.pagesize;
  history_no = src.history_no;
  timescale = src.timescale;
  old_str = src.old_str;
  new_str = src.new_str;
  change_no = src.change_no;
  change_kind = src.change_kind;
  proc_name = src.proc_name;
  host_var_name = src.host_var_name;
}
