-- ===== src/Files/Paths/Typing.antt =====
-- The kinds of the values that `Path` gives, against those that pathlib documents.
use tonio.Prelude.{◌≡◌, refl, Bool, true, false}
use tonio.Files.Paths.{
  Argument, str, pure, concrete, own_class, unwrap, Ret, plain, path, paths, walked, raised, Out,
  library, libraries, library_walk, type_error, method, method_path, method_path_iterable,
  walk_result, open_result, Method, stat, chmod, exists, is_dir, is_file, is_symlink, is_socket,
  is_fifo, is_block_device, is_char_device, is_junction, lchmod, lstat, mkdir, owner, group,
  is_mount, rmdir, symlink_to, hardlink_to, touch, unlink, read_bytes, read_text, write_bytes,
  write_text, samefile, as_uri, readlink, rename, replace, resolve, absolute, expanduser, cwd, home,
  copy, copy_into, move, move_into, from_uri, glob, rglob, iterdir, walk, open_path, call, apply,
  wrapping,
}

-- The kinds of value that pathlib documents for its methods.
pub data Kind : Type 0 where
  gives_plain gives_path gives_paths gives_walk : Kind

abbrev pub documented : Method → Kind
documented readlink = gives_path
documented rename = gives_path
documented replace = gives_path
documented resolve = gives_path
documented absolute = gives_path
documented expanduser = gives_path
documented cwd = gives_path
documented home = gives_path
documented copy = gives_path
documented copy_into = gives_path
documented move = gives_path
documented move_into = gives_path
documented from_uri = gives_path
documented glob = gives_paths
documented rglob = gives_paths
documented iterdir = gives_paths
documented walk = gives_walk
documented _ = gives_plain

abbrev pub of_kind : Kind → Ret → Bool
of_kind k (raised e) = true
of_kind gives_plain (plain n) = true
of_kind gives_path (path p) = true
of_kind gives_paths (paths ps) = true
of_kind gives_walk (walked ds) = true
of_kind _ _ = false

-- The values that users of `Path` may get.
abbrev pub Own : Out → Type 0
Own (library p) = ⊥
Own (libraries ps) = ⊥
Own (library_walk ds) = ⊥
Own type_error = ⊥
Own _ = Unit

method-Own : (r : Ret) → of_kind gives_plain r ≡ true → Own (method r)
unfolding method
method-Own (plain n) h = tt
method-Own (path p) h = absurd (cc h)
method-Own (paths ps) h = absurd (cc h)
method-Own (walked ds) h = absurd (cc h)
method-Own (raised e) h = tt

method_path-Own : (r : Ret) → of_kind gives_path r ≡ true → Own (method_path r)
unfolding method_path
method_path-Own (plain n) h = absurd (cc h)
method_path-Own (path p) h = tt
method_path-Own (paths ps) h = absurd (cc h)
method_path-Own (walked ds) h = absurd (cc h)
method_path-Own (raised e) h = tt

method_path_iterable-Own : (r : Ret) → of_kind gives_paths r ≡ true → Own (method_path_iterable r)
unfolding method_path_iterable
method_path_iterable-Own (plain n) h = absurd (cc h)
method_path_iterable-Own (path p) h = absurd (cc h)
method_path_iterable-Own (paths ps) h = tt
method_path_iterable-Own (walked ds) h = absurd (cc h)
method_path_iterable-Own (raised e) h = tt

walk_result-Own : (r : Ret) → of_kind gives_walk r ≡ true → Own (walk_result r)
unfolding walk_result
walk_result-Own (plain n) h = absurd (cc h)
walk_result-Own (path p) h = absurd (cc h)
walk_result-Own (paths ps) h = absurd (cc h)
walk_result-Own (walked ds) h = tt
walk_result-Own (raised e) h = tt

open_result-Own : (r : Ret) → of_kind gives_plain r ≡ true → Own (open_result r)
unfolding open_result
open_result-Own (plain n) h = tt
open_result-Own (path p) h = absurd (cc h)
open_result-Own (paths ps) h = absurd (cc h)
open_result-Own (walked ds) h = absurd (cc h)
open_result-Own (raised e) h = tt

-- If pathlib's method gives a value of the kind that it documents, or raises, the method of `Path`
-- gives no path of pathlib's class, and does not fail to convert the value.
pub call-Own : (m : Method) (r : Ret) → of_kind (documented m) r ≡ true → Own (call m r)
unfolding call apply wrapping
call-Own stat r h = method-Own r h
call-Own chmod r h = method-Own r h
call-Own exists r h = method-Own r h
call-Own is_dir r h = method-Own r h
call-Own is_file r h = method-Own r h
call-Own is_symlink r h = method-Own r h
call-Own is_socket r h = method-Own r h
call-Own is_fifo r h = method-Own r h
call-Own is_block_device r h = method-Own r h
call-Own is_char_device r h = method-Own r h
call-Own is_junction r h = method-Own r h
call-Own lchmod r h = method-Own r h
call-Own lstat r h = method-Own r h
call-Own mkdir r h = method-Own r h
call-Own owner r h = method-Own r h
call-Own group r h = method-Own r h
call-Own is_mount r h = method-Own r h
call-Own rmdir r h = method-Own r h
call-Own symlink_to r h = method-Own r h
call-Own hardlink_to r h = method-Own r h
call-Own touch r h = method-Own r h
call-Own unlink r h = method-Own r h
call-Own read_bytes r h = method-Own r h
call-Own read_text r h = method-Own r h
call-Own write_bytes r h = method-Own r h
call-Own write_text r h = method-Own r h
call-Own samefile r h = method-Own r h
call-Own as_uri r h = method-Own r h
call-Own readlink r h = method_path-Own r h
call-Own rename r h = method_path-Own r h
call-Own replace r h = method_path-Own r h
call-Own resolve r h = method_path-Own r h
call-Own absolute r h = method_path-Own r h
call-Own expanduser r h = method_path-Own r h
call-Own cwd r h = method_path-Own r h
call-Own home r h = method_path-Own r h
call-Own copy r h = method_path-Own r h
call-Own copy_into r h = method_path-Own r h
call-Own move r h = method_path-Own r h
call-Own move_into r h = method_path-Own r h
call-Own from_uri r h = method_path-Own r h
call-Own glob r h = method_path_iterable-Own r h
call-Own rglob r h = method_path_iterable-Own r h
call-Own iterdir r h = method_path_iterable-Own r h
call-Own walk r h = walk_result-Own r h
call-Own open_path r h = open_result-Own r h

-- Only strings and concrete paths reach pathlib through `_unwrap`, and it leaves these alone.
unwrap_again : (a : Argument) → unwrap (unwrap a) ≡ unwrap a
unfolding unwrap
unwrap_again (str p) = refl
unwrap_again (pure p) = refl
unwrap_again (concrete p) = refl
unwrap_again (own_class p) = refl
