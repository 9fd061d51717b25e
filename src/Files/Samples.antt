-- ===== src/Files/Samples.antt =====
-- A file that can be read, and a path.
use tonio.Prelude.{refl, true, none, some, [], ◌∷◌}
use tonio.Files.Wrapper.{close, read, FileObject, IoWrapper}
use tonio.Files.Paths.{paths, glob, call}
use tonio.Files.Paths.Typing.{Own, call-Own}

abbrev file : FileObject
file close = some (record { value = 1; callable = true })
file read = some (record { value = 2; callable = true })
file _ = none

abbrev wrapper : IoWrapper
wrapper = record { wrapped = file; slots = λ n. none }

call-Own_example : Own (call glob (paths (1 ∷ 2 ∷ [])))
call-Own_example = call-Own glob (paths (1 ∷ 2 ∷ [])) refl
