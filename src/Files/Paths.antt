-- ===== src/Files/Paths.antt =====
-- `Path` of tonio/_fs/_path.py: which values of pathlib's methods are made paths of its own. What
-- pathlib gives is a parameter.
pub mod Typing
use tonio.Prelude.{ℕ, List}

-- A path that is given to a method: a string, a path of pathlib that is pure or concrete, or one of
-- the own class, which is pure for pathlib.
pub data Argument : Type 0 where
  str pure concrete own_class : ℕ → Argument

-- `_unwrap`
pub unwrap : Argument → Argument
unwrap (str p) = str p
unwrap (pure p) = concrete p
unwrap (concrete p) = concrete p
unwrap (own_class p) = concrete p

-- What a method of pathlib gives.
pub data Ret : Type 0 where
  plain path : ℕ → Ret
  paths : List ℕ → Ret
  -- directories with what `walk` says of each
  walked : List (ℕ × ℕ) → Ret
  raised : ℕ → Ret

-- What a method of `Path` gives: `library` has paths of pathlib's own class, `own` and `owns` those
-- of `Path`, and `type_error` is what the constructor or the iteration raises for another value.
pub data Out : Type 0 where
  value own error library file : ℕ → Out
  owns libraries : List ℕ → Out
  own_walk library_walk : List (ℕ × ℕ) → Out
  type_error : Out

pub data Wrapping : Type 0 where
  wrap_method wrap_method_path wrap_method_path_iterable : Wrapping

-- `_wrap_method`
pub method : Ret → Out
method (plain n) = value n
method (path p) = library p
method (paths ps) = libraries ps
method (walked ds) = library_walk ds
method (raised e) = error e

-- `_wrap_method_path`, and the methods that call `self.__class__` themselves.
pub method_path : Ret → Out
method_path (path p) = own p
method_path (raised e) = error e
method_path _ = type_error

-- `_wrap_method_path_iterable`: all paths, as a list.
pub method_path_iterable : Ret → Out
method_path_iterable (paths ps) = owns ps
method_path_iterable (raised e) = error e
method_path_iterable _ = type_error

-- `walk`, whose directories are paths.
pub walk_result : Ret → Out
walk_result (walked ds) = own_walk ds
walk_result (raised e) = error e
walk_result _ = type_error

-- `open`: `wrap_file` takes the file.
pub open_result : Ret → Out
open_result (plain f) = file f
open_result (raised e) = error e
open_result _ = type_error

pub data Method : Type 0 where
  stat chmod exists glob rglob is_dir is_file is_symlink is_socket is_fifo is_block_device : Method
  is_char_device is_junction iterdir lchmod lstat mkdir owner group is_mount readlink rename :
      Method
  replace resolve rmdir symlink_to hardlink_to touch unlink absolute expanduser read_bytes : Method
  read_text write_bytes write_text : Method
  cwd home open_path samefile copy copy_into move move_into walk from_uri as_uri : Method

-- How the class body wraps a method, for those that it only wraps.
pub wrapping : Method → Wrapping
wrapping glob = wrap_method_path_iterable
wrapping rglob = wrap_method_path_iterable
wrapping iterdir = wrap_method_path_iterable
wrapping readlink = wrap_method_path
wrapping rename = wrap_method_path
wrapping replace = wrap_method_path
wrapping resolve = wrap_method_path
wrapping absolute = wrap_method_path
wrapping expanduser = wrap_method_path
wrapping _ = wrap_method

pub apply : Wrapping → Ret → Out
unfolding method method_path method_path_iterable
apply wrap_method r = method r
apply wrap_method_path r = method_path r
apply wrap_method_path_iterable r = method_path_iterable r

-- A call of a method, where pathlib gives `r`.
unfoldable pub call : Method → Ret → Out
unfolding apply wrapping method_path walk_result open_result method
call cwd r = method_path r
call home r = method_path r
call open_path r = open_result r
call samefile r = method r
call copy r = method_path r
call copy_into r = method_path r
call move r = method_path r
call move_into r = method_path r
call walk r = walk_result r
call from_uri r = method_path r
call as_uri r = method r
call m r = apply (wrapping m) r
