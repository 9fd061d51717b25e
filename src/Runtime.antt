-- ===== src/Runtime.antt =====
-- `run_forever` of tonio/_runtime.py and the signal functions of tonio/_signals.py. What the kernel and
-- the signal module of Python say is a record.
mod Samples
pub mod Schedule
pub mod Restoring
pub mod Failing
pub mod Entry
use tonio.Prelude.{
  ℕ, Bool, true, false, not, Option, none, some, List, [], ◌∷◌, update, ◌==◌, if◌then◌else◌,
}

pub data Error : Type 0 where
  runtime_error value_error attribute_error : Error
  os_error : ℕ → Error

-- What `socket.socketpair()` gives: the descriptors of the two ends.
pub data Pair : Type 0 where
  pair : ℕ → ℕ → Pair
  failed : Error → Pair

-- The answers of the calls outside: `signal` and `siginterrupt` are what signal.signal and
-- signal.siginterrupt raise for a number, `setblocking` what the two calls on the self-socket raise.
pub record Kernel : Type 0 where
  pub main_thread : Bool
  pub valid : ℕ → Bool
  pub signal : ℕ → Option Error
  pub siginterrupt : ℕ → Option Error
  pub socketpair : Pair
  pub setblocking : Option Error
  pub einval : ℕ
  pub sigint : ℕ

pub data Handler : Type 0 where
  noop sig_dfl default_int_handler : Handler
  foreign : ℕ → Handler

-- The fields of the runtime, and of the process the wake-up descriptor, none for -1, and the handlers.
pub record Process : Type 0 where
  pub ssock_r : Option ℕ
  pub ssock_w : Option ℕ
  pub sigset : List ℕ
  pub sig_wfd : Option ℕ
  pub sig_listening : Bool
  pub stopping : Bool
  pub wakeup : Option ℕ
  pub handlers : ℕ → Handler

-- The `except OSError` of `_sig_add` and `_sig_rem`.
pub translated : Kernel → Error → Error
translated k (os_error e) = if e == k.einval then runtime_error else os_error e
translated k runtime_error = runtime_error
translated k value_error = value_error
translated k attribute_error = attribute_error

abbrev translated_all : Kernel → Option Error → Option Error
translated_all k none = none
translated_all k (some e) = some (translated k e)

-- `_check_sig` of a number.
pub check_sig : Kernel → ℕ → Option Error
check_sig k sig = if k.valid sig then none else some value_error

-- signal.signal, where it raises nothing.
pub handle : ℕ → Handler → Option Error → Process → Option Error × Process
handle sig h (some e) p = (some e, p)
handle sig h none p = (none, record p { handlers = update p.handlers sig h })

-- The `try` of `_sig_add`: siginterrupt follows a signal.signal that raised nothing.
pub catch_signal : Kernel → ℕ → Option Error → Process → Option Error × Process
unfolding translated handle
catch_signal k sig (some e) p = (some (translated k e), p)
catch_signal k sig none p = (translated_all k (k.siginterrupt sig), (handle sig noop none p).1)

pub add_checked : Kernel → ℕ → Option Error → Process → Option Error × Process
unfolding catch_signal
add_checked k sig (some e) p = (some e, p)
add_checked k sig none p = catch_signal k sig (k.signal sig) p

unfoldable pub sig_add : Kernel → ℕ → Process → Option Error × Process
unfolding add_checked check_sig
sig_add k sig p =
    if k.main_thread then add_checked k sig (check_sig k sig) p else (some value_error, p)

pub default_handler : Kernel → ℕ → Handler
default_handler k sig = if sig == k.sigint then default_int_handler else sig_dfl

unfoldable pub sig_rem : Kernel → ℕ → Process → Option Error × Process
unfolding translated default_handler handle
sig_rem k sig p =
    if k.main_thread
    then (let r = handle sig (default_handler k sig) (k.signal sig) p in
        (translated_all k r.0, r.1))
    else (some value_error, p)

-- `_set_sig_wfd`: signal.set_wakeup_fd gives the descriptor that was set before, and raises ValueError
-- outside of the main thread.
pub set_sig_wfd : Kernel → Option ℕ → Process → Option Error × Process
set_sig_wfd k fd p =
    if k.main_thread then (none, record p { wakeup = fd }) else (some value_error, p)

-- `_ssock_start`, behind the test that there is no self-socket yet.
pub start_pair : Kernel → Pair → Process → Option Error × Process
start_pair k (failed e) p = (some e, p)
start_pair k (pair r w) p = elim k.setblocking [
  | none ↦ (none, record p { ssock_r = some r; ssock_w = some w })
  | some e ↦ (some e, record p { ssock_r = none; ssock_w = none })
]

pub ssock_start_from : Kernel → Option ℕ → Process → Option Error × Process
unfolding start_pair
ssock_start_from k (some w) p = (some runtime_error, p)
ssock_start_from k none p = start_pair k k.socketpair p

unfoldable pub ssock_start : Kernel → Process → Option Error × Process
unfolding ssock_start_from
ssock_start k p = ssock_start_from k p.ssock_w p

pub ssock_stop_from : Option ℕ → Process → Option Error × Process
ssock_stop_from none p = (some runtime_error, p)
ssock_stop_from (some w) p = (none, record p { ssock_r = none; ssock_w = none })

unfoldable pub ssock_stop : Process → Option Error × Process
unfolding ssock_stop_from
ssock_stop p = ssock_stop_from p.ssock_w p

-- The next call, unless this one raised.
abbrev pub and_then :
    Option Error × Process → (Process → Option Error × Process) → Option Error × Process
and_then (some e, p) f = (some e, p)
and_then (none, p) f = f p

-- The loop of `_sig_reg`.
pub add_all : Kernel → List ℕ → Process → Option Error × Process
unfolding sig_add
add_all k [] p = (none, p)
add_all k (sig ∷ sigs) p = and_then (sig_add k sig p) (add_all k sigs)

-- The `except Exception` of `_sig_reg`, and its end.
pub reg_end : List ℕ → Option Error → Process → Option Error × Process
reg_end sigs none p = (none, record p { sig_listening = true })
reg_end [] (some e) p = (none, p)
reg_end (s ∷ ss) (some e) p = (some e, p)

pub reg_handlers : Kernel → Option ℕ → Option Error × Process → Option Error × Process
unfolding add_all reg_end
reg_handlers k old (some e, p) = reg_end p.sigset (some e) p
reg_handlers k old (none, p) =
    let r = add_all k p.sigset (record p { sig_wfd = old }) in reg_end p.sigset r.0 r.1

pub sig_reg_from : Kernel → Option ℕ → Process → Option Error × Process
unfolding reg_handlers set_sig_wfd
sig_reg_from k none p = reg_end p.sigset (some attribute_error) p
sig_reg_from k (some w) p = reg_handlers k p.wakeup (set_sig_wfd k (some w) p)

unfoldable pub sig_reg : Kernel → Process → Option Error × Process
unfolding sig_reg_from
sig_reg k p = sig_reg_from k p.ssock_w p

-- The loop of `_sig_dereg`, which passes over errors.
pub rem_all : Kernel → List ℕ → Process → Process
unfolding sig_rem
rem_all k [] p = p
rem_all k (sig ∷ sigs) p = rem_all k sigs (sig_rem k sig p).1

pub dereg_from : Kernel → Bool → Process → Option Error × Process
unfolding rem_all set_sig_wfd
dereg_from k false p = (none, p)
dereg_from k true p =
    set_sig_wfd k p.sig_wfd (rem_all k p.sigset (record p { sig_listening = false }))

unfoldable pub sig_dereg : Kernel → Process → Option Error × Process
unfolding dereg_from
sig_dereg k p = dereg_from k p.sig_listening p

unfoldable pub run_forever_pre : Kernel → Process → Option Error × Process
unfolding ssock_start sig_reg
run_forever_pre k p = and_then (ssock_start k p) (sig_reg k)

unfoldable pub run_forever_post : Kernel → Process → Option Error × Process
unfolding sig_dereg ssock_stop
run_forever_post k p =
    and_then (and_then (sig_dereg k p) ssock_stop) (λ q. (none, record q { stopping = false }))

-- The `finally`: an error of its own takes the place of that of the body.
abbrev pub finally : Option Error → Option Error × Process → Option Error × Process
finally e (some f, p) = (some f, p)
finally e (none, p) = (e, p)

-- `_run` leaves these fields alone, and ends as `outcome` says.
unfoldable pub run_body : Option Error → Option Error × Process → Option Error × Process
run_body outcome (some e, p) = (some e, p)
run_body outcome (none, p) = (outcome, p)

unfoldable pub run_forever : Kernel → Option Error → Process → Option Error × Process
unfolding run_forever_pre run_forever_post run_body
run_forever k outcome p =
    let r = run_body outcome (run_forever_pre k p) in finally r.0 (run_forever_post k r.1)
