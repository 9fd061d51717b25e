-- ===== src/Net/Hilvl/Unix.antt =====
-- `_unix_check_path`, `_unix_bind` and `open_unix_listener` of tonio/_net/_hilvl.py.
use tonio.Prelude.{
  ℕ, ◌≡◌, ◌≢◌, refl, Bool, true, false, not, Option, none, some, List, [], ◌∷◌, ◌==◌, if◌then◌else◌,
  ◌⊎◌, inl, inr, Bool-cases, Option-cases, arith,
}
use Prim.Native.String.{String}
use text.Mathlib.Text.{◌==◌ as str_eq}

-- A path, as `os.fspath` gives it.
pub data FsPath : Type 0 where
  chars : String → FsPath
  bytes : List ℕ → FsPath

-- What the system says of each call, with the number of its error; `unlinked` tells whether removing
-- the file works.
pub record Kernel : Type 0 where
  pub socket : Option ℕ
  pub bind : Option ℕ
  pub chmod : Option ℕ
  pub unlinked : Bool
  pub listen : Option ℕ

pub data Outcome : Type 0 where
  listening : Outcome
  value_error : Outcome
  os_error : ℕ → Outcome

-- How the call ends, whether it has left the socket's file, and whether it has left the socket open.
pub record Opened : Type 0 where
  pub outcome : Outcome
  pub file : Bool
  pub is_open : Bool

-- `_unix_check_path`: whether the path will do. A NUL byte in front is the abstract namespace.
pub check_path : FsPath → Option ℕ → Bool
check_path (chars p) mode = not (str_eq p "")
check_path (bytes []) mode = false
check_path (bytes (b ∷ p)) none = true
check_path (bytes (b ∷ p)) (some m) = not (b == 0)

-- The `chmod` of `_unix_bind`: its error, and whether the file is there.
pub set_mode : Option ℕ → Kernel → Option ℕ × Bool
set_mode none k = (none, true)
set_mode (some m) k = elim k.chmod [ none ↦ (none, true) | some e ↦ (some e, not k.unlinked) ]

-- Behind a `bind` that may have failed.
on_bound : Option ℕ → Option ℕ × Bool → Option ℕ × Bool
on_bound none r = r
on_bound (some e) r = (some e, false)

-- `_unix_bind`; the error in place of EADDRINUSE has the same number.
pub unix_bind : Option ℕ → Kernel → Option ℕ × Bool
unfolding set_mode on_bound
unix_bind mode k = on_bound k.bind (set_mode mode k)

-- Behind the bind, under `_close_on_error`.
pub listen_on : Kernel → Option ℕ × Bool → Opened
listen_on k (some e, file) = record { outcome = os_error e; file = file; is_open = false }
listen_on k (none, file) = elim k.listen [
  | none ↦ record { outcome = listening; file = file; is_open = true }
  | some e ↦ record { outcome = os_error e; file = file; is_open = false }
]

-- Behind a `socket` that may have failed.
on_socket : Option ℕ → Opened → Opened
on_socket none r = r
on_socket (some e) r = record { outcome = os_error e; file = false; is_open = false }

pub open_unix_listener : FsPath → Option ℕ → Kernel → Opened
unfolding check_path unix_bind listen_on on_socket
open_unix_listener path mode k =
    if check_path path mode
    then on_socket k.socket (listen_on k (unix_bind mode k))
    else record { outcome = value_error; file = false; is_open = false }

-- The path will do with this mode, said without the function.
abbrev pub IsFit : FsPath → Option ℕ → Type 0
IsFit (chars p) mode = str_eq p "" ≡ false
IsFit (bytes p) none = p ≢ []
IsFit (bytes p) (some m) = (b : ℕ) × (q : List ℕ) × (p ≡ b ∷ q) × (b ≢ 0)

-- What each outcome says.
abbrev pub Explains : FsPath → Option ℕ → Kernel → Outcome → Bool → Bool → Type 0
Explains path mode k listening file is_open = IsFit path mode × (file ≡ true) × (is_open ≡ true)
Explains path mode k value_error file is_open = (file ≡ false) × (is_open ≡ false)
Explains path mode k (os_error e) file is_open =
    IsFit path mode
    × (is_open ≡ false)
    × ((file ≡ false) ⊎ ((k.unlinked ≡ false) ⊎ (k.listen ≡ some e)))

check_path-IsFit : (path : FsPath) (mode : Option ℕ) → check_path path mode ≡ true → IsFit path mode
unfolding check_path
check_path-IsFit (chars p) mode h = ground arith
check_path-IsFit (bytes []) mode h = absurd (cc h)
check_path-IsFit (bytes (b ∷ p)) none h = λ e. absurd (cc e)
check_path-IsFit (bytes (b ∷ p)) (some m) h = (b, p, refl, ground arith)

module _ (path : FsPath) (mode : Option ℕ) (k : Kernel) (fit : IsFit path mode) where
  abbrev Explained : Opened → Type 0
  Explained r = Explains path mode k r.outcome r.file r.is_open

  -- A socket whose file is there.
  bound-Explained : Explained (listen_on k (none, true))
  unfolding listen_on
  bound-Explained = elim (Option-cases k.listen) [
    | inl h ↦ rw h (fit, refl, refl)
    | inr (e, h) ↦ rw h (fit, refl, inr (inr refl))
  ]

  set_mode-Explained : (m : Option ℕ) → Explained (listen_on k (set_mode m k))
  unfolding set_mode listen_on
  set_mode-Explained none = bound-Explained
  set_mode-Explained (some m) = elim (Option-cases k.chmod) [
    | inl h ↦ rw h bound-Explained
    | inr (e, h) ↦ elim (Bool-cases k.unlinked) [
      | inl u ↦ rw (h, u) (fit, refl, inl refl)
      | inr u ↦ rw (h, u) (fit, refl, inr (inl refl))
    ]
  ]

  on_bound-Explained : (o : Option ℕ) → Explained (listen_on k (on_bound o (set_mode mode k)))
  unfolding on_bound listen_on
  on_bound-Explained none = set_mode-Explained mode
  on_bound-Explained (some e) = (fit, refl, inl refl)

  on_socket-Explained : (o : Option ℕ) → Explained (on_socket o (listen_on k (unix_bind mode k)))
  unfolding on_socket unix_bind
  on_socket-Explained none = on_bound-Explained k.bind
  on_socket-Explained (some e) = (fit, refl, inl refl)

-- A listener is returned only for a fit path, with the socket open and its file there. A ValueError
-- leaves neither. Any other error leaves the socket closed, and leaves the file only if removing it
-- after a failed `chmod` did not work or if the error is that of `listen`.
pub unix_listener_result :
    (path : FsPath) (mode : Option ℕ) (k : Kernel)
    → let r = open_unix_listener path mode k in Explains path mode k r.outcome r.file r.is_open
unfolding open_unix_listener
unix_listener_result path mode k = elim (Bool-cases (check_path path mode)) [
  | inl fit ↦ rw fit (on_socket-Explained path mode k (check_path-IsFit path mode fit) k.socket)
  | inr unfit ↦ rw unfit (refl, refl)
]
