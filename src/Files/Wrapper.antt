-- ===== src/Files/Wrapper.antt =====
-- `IOWrapper`, `open_file` and `wrap_file` of tonio/_fs/_file.py, and the lines of a file in
-- tonio/_colored/_fs/_file.py. What `getattr` gives on the wrapped file is a function.
pub mod Access
use tonio.Prelude.{
  ℕ, ◌≡◌, ◌≢◌, ◌⊎◌, inl, inr, refl, sym, ap, subst, arith, ◌∙◌, Bool, true, false, not, ◌&&◌, ◌||◌,
  Option, none, some, List, [], ◌∷◌, ◌++◌, if◌then◌else◌, ◌==◌, ◌+◌, map, Bool-cases, Option-cases,
}

-- The attribute names that the two sets have, and any other.
pub data Name : Type 0 where
  closed encoding errors fileno isatty newlines readable seekable writable : Name
  buffer raw line_buffering closefd name mode getvalue getbuffer : Name
  close flush read read1 readall readinto readline readlines seek tell truncate write : Name
  writelines readinto1 peek : Name
  other : ℕ → Name

-- Membership in _FILE_SYNC_ATTRS.
pub is_sync : Name → Bool
is_sync closed = true
is_sync encoding = true
is_sync errors = true
is_sync fileno = true
is_sync isatty = true
is_sync newlines = true
is_sync readable = true
is_sync seekable = true
is_sync writable = true
is_sync buffer = true
is_sync raw = true
is_sync line_buffering = true
is_sync closefd = true
is_sync name = true
is_sync mode = true
is_sync getvalue = true
is_sync getbuffer = true
is_sync _ = false

-- Membership in _FILE_ASYNC_METHODS.
pub is_async : Name → Bool
is_async close = true
is_async flush = true
is_async read = true
is_async read1 = true
is_async readall = true
is_async readinto = true
is_async readline = true
is_async readlines = true
is_async seek = true
is_async tell = true
is_async truncate = true
is_async write = true
is_async writelines = true
is_async readinto1 = true
is_async peek = true
is_async _ = false

-- An attribute of a file, and whether it can be called.
pub record Member : Type 0 where
  pub value : ℕ
  pub callable : Bool

abbrev pub FileObject : Type 0
FileObject = Name → Option Member

-- `slots` has what `setattr` has put on the wrapper itself.
pub record IoWrapper : Type 0 where
  pub wrapped : FileObject
  pub slots : Name → Option Member

-- What an access gives: the file's own attribute, a function that calls the file's method in a thread,
-- or AttributeError.
pub data Got : Type 0 where
  own : Member → Got
  threaded : Member → Got
  missing : Got

-- Names are compared by number.
number : Name → ℕ
number closed = 0
number encoding = 1
number errors = 2
number fileno = 3
number isatty = 4
number newlines = 5
number readable = 6
number seekable = 7
number writable = 8
number buffer = 9
number raw = 10
number line_buffering = 11
number closefd = 12
number name = 13
number mode = 14
number getvalue = 15
number getbuffer = 16
number close = 17
number flush = 18
number read = 19
number read1 = 20
number readall = 21
number readinto = 22
number readline = 23
number readlines = 24
number seek = 25
number tell = 26
number truncate = 27
number write = 28
number writelines = 29
number readinto1 = 30
number peek = 31
number (other k) = k + 32

-- `setattr(self, name, wrapper)`
pub keep : Name → Member → IoWrapper → IoWrapper
unfolding number
keep n m w = record w { slots = λ j. if number n == number j then some m else w.slots j }

pub wrap_method : Name → Option Member → IoWrapper → Got × IoWrapper
unfolding keep
wrap_method n none w = (missing, w)
wrap_method n (some m) w = (threaded m, keep n m w)

pub own_or_missing : Option Member → Got
own_or_missing none = missing
own_or_missing (some m) = own m

-- `__getattr__`, which Python calls for a name that the object itself does not have.
pub get_missing : Name → IoWrapper → Got × IoWrapper
unfolding is_sync is_async wrap_method own_or_missing
get_missing n w =
    if is_sync n
    then (own_or_missing (w.wrapped n), w)
    else if is_async n
    then wrap_method n (w.wrapped n) w
    else (missing, w)

pub get_from : Option Member → Name → IoWrapper → Got × IoWrapper
unfolding get_missing
get_from (some m) n w = (threaded m, w)
get_from none n w = get_missing n w

-- An access to an attribute of the wrapper.
unfoldable pub get_attr : Name → IoWrapper → Got × IoWrapper
unfolding get_from
get_attr n w = get_from (w.slots n) n w

pub has_attr : Option Member → Bool
has_attr none = false
has_attr (some m) = true

-- What `__dir__` adds to the names of the class.
unfoldable pub listed : IoWrapper → Name → Bool
unfolding is_sync is_async has_attr
listed w n = (is_sync n && has_attr (w.wrapped n)) || (is_async n && has_attr (w.wrapped n))

-- `has` of `wrap_file`.
pub has_callable : Option Member → Bool
has_callable none = false
has_callable (some m) = m.callable

-- What `wrap_file` gives: nothing for TypeError.
unfoldable pub wrap_file : FileObject → Option IoWrapper
unfolding has_callable
wrap_file f =
    if has_callable (f close) && (has_callable (f read) || has_callable (f write))
    then some (record { wrapped = f; slots = λ n. none })
    else none

-- What a call in a thread gives.
pub data Call : Type 0 where
  gave : FileObject → Call
  failed : ℕ → Call

-- How `open_file` and `detach` end; `unfit` is the TypeError.
pub data Opened : Type 0 where
  opened : IoWrapper → Opened
  unfit : Opened
  raised : ℕ → Opened

pub or_unfit : Option IoWrapper → Opened
or_unfit none = unfit
or_unfit (some w) = opened w

-- `open_file`, where `io.open` gives `c`.
unfoldable pub open_file : Call → Opened
unfolding or_unfit wrap_file
open_file (gave f) = or_unfit (wrap_file f)
open_file (failed e) = raised e

-- `detach`, where the file's own `detach` gives `c`; the wrapper stays as it is.
unfoldable pub detach : Call → IoWrapper → Opened × IoWrapper
unfolding or_unfit wrap_file
detach (gave f) w = (or_unfit (wrap_file f), w)
detach (failed e) w = (raised e, w)

-- `__anext__` until StopAsyncIteration: the lines that `readline` gives, up to the first empty one.
unfoldable pub lines : {A : Type 0} → (A → Bool) → List A → List A
lines empty [] = []
lines empty (l ∷ ls) = let rest = lines empty ls in if empty l then [] else l ∷ rest
