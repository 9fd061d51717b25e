-- ===== src/Testing.antt =====
-- tonio/_testutils/_pytest_plugin.py: how tests and fixtures that are coroutines are collected and run.
-- What pytest knows of an item or a function is a record of flags; a name is a number.
mod Samples
pub mod Collecting
use tonio.Prelude.{
  ℕ, zero, suc, ◌+◌, Bool, true, false, not, ◌&&◌, ◌||◌, Option, none, some, List, [], ◌∷◌, ◌++◌,
  elem, get_elem?, length, take, drop, if◌then◌else◌, ◌==◌,
}

-- What an exception is that is no group: pytest's Exit is an Exception, the next two are not.
pub data Leaf : Type 0 where
  exit keyboard_interrupt system_exit : Leaf
  other : ℕ → Leaf

-- An exception: a leaf, or a group of these.
mutual
  pub data Exc : Type 0 where
    leaf : Leaf → Exc
    group : Excs → Exc

  pub data Excs : Type 0 where
    nil : Excs
    cons : Exc → Excs → Excs

-- `_iterate_exceptions`
mutual
  pub iterate : Exc → List Leaf
  iterate (leaf l) = l ∷ []
  iterate (group es) = iterate_all es

  pub iterate_all : Excs → List Leaf
  iterate_all nil = []
  iterate_all (cons e es) = iterate e ++ iterate_all es

-- The test of `pytest_pyfunc_call`.
pub is_stop : Leaf → Bool
is_stop exit = true
is_stop keyboard_interrupt = true
is_stop system_exit = true
is_stop (other n) = false

pub first_stop : List Leaf → Option Leaf
unfolding is_stop
first_stop [] = none
first_stop (l ∷ ls) = let rest = first_stop ls in if is_stop l then some l else rest

-- How running a test ends: only an ExceptionGroup is caught.
pub data Ended : Type 0 where
  passed : Ended
  exception_group : Excs → Ended
  raised : Exc → Ended

-- What `pytest_pyfunc_call` gives or raises for a test: True, None, or an exception.
pub data Called : Type 0 where
  ran skipped : Called
  raises : Exc → Called

pub or_group : Option Leaf → Excs → Called
or_group (some l) es = raises (leaf l)
or_group none es = raises (group es)

pub run_result : Ended → Called
unfolding or_group first_stop iterate_all
run_result passed = ran
run_result (exception_group es) = or_group (first_stop (iterate_all es)) es
run_result (raised e) = raises e

-- The value of the runtime fixture: a dictionary, with its option `threads`, or another object.
pub data Backend : Type 0 where
  dict : Option ℕ → Backend
  object : Backend

-- The runtime among the arguments of a test, if there is one, and whether the test is one of hypothesis
-- and a coroutine.
pub record TestItem : Type 0 where
  pub runtime : Option Backend
  pub hypothesis : Bool
  pub coroutine : Bool

-- `extract_runtime_options`
pub extract_runtime_options : Backend → Option ℕ
extract_runtime_options (dict threads) = threads
extract_runtime_options object = none

unfoldable pub pyfunc_call : TestItem → Ended → Called
unfolding run_result
pyfunc_call t r = elim t.runtime [
  | none ↦ skipped
  | some backend ↦
      let called = run_result r in
      if t.hypothesis then skipped else if t.coroutine then called else skipped
]

-- `get_runner`: the runner there is, or a new one, whose number of threads is 2 by default.
pub get_runner : Option ℕ → Option ℕ → ℕ
get_runner (some threads) options = threads
get_runner none none = 2
get_runner none (some threads) = threads

-- The runner that the requests, one after the other, leave.
unfoldable pub runners : Option ℕ → List Backend → Option ℕ
unfolding get_runner extract_runtime_options
runners r [] = r
runners r (o ∷ os) = runners (some (get_runner r (extract_runtime_options o))) os

-- A fixture: its function, and the names of its arguments.
pub record Fixture : Type 0 where
  pub func : ℕ
  pub argnames : List ℕ

pub add_missing : ℕ → List ℕ → List ℕ
add_missing n names = if elem n names then names else names ++ n ∷ []

-- `pytest_fixture_setup`: the fixture while it is set up, and behind it, whether or not the setup raises;
-- `runtime_name` and `request_name` are the two names, and `wrapper` is the new function.
pub fixture_setup : ℕ → ℕ → ℕ → Bool → Bool → Fixture → Fixture × Fixture
unfolding add_missing
fixture_setup runtime_name request_name wrapper coroutine requested f =
    if coroutine && requested
    then (
      record {
        func = wrapper;
        argnames = add_missing request_name (add_missing runtime_name f.argnames);
      },
      record { func = f.func; argnames = f.argnames },
    )
    else (f, f)

-- `pytest_pycollect_makeitem`: whether the runtime fixture is added to a function.
pub uses_runtime : Bool → Bool → Bool → Bool → Bool
uses_runtime is_test coroutine marker own_marker = is_test && coroutine && (marker || own_marker)

-- An item of the session.
pub record Item : Type 0 where
  pub is_function : Bool
  pub coroutine : Bool
  pub marked : Bool
  pub name : ℕ
  pub names_closure : List ℕ
  -- whether the call specification of `tonio_runtime` is set, and the name ends in `[tonio]`
  pub has_callspec : Bool

-- The condition of the loop of `pytest_collection_finish`.
pub is_bare : ℕ → Item → Bool
is_bare runtime_name i =
    i.is_function && i.coroutine && i.marked && not (elem runtime_name i.names_closure)

pub new_item : ℕ → Item → Item
unfolding add_missing
new_item runtime_name i = record i {
  names_closure = add_missing runtime_name i.names_closure;
  has_callspec = true;
}

-- `items[i : i + 1] = new_items`
pub splice : ℕ → List Item → List Item → List Item
splice i new items = take i items ++ new ++ drop (suc i) items

pub replace_at : ℕ → ℕ → Option Item → List Item → List Item
unfolding is_bare new_item splice
replace_at runtime_name i none items = items
replace_at runtime_name i (some item) items =
    if is_bare runtime_name item then splice i (new_item runtime_name item ∷ []) items else items

-- The loop over the first `n` positions, the last first; the item is that of the list made before.
pub finish_loop : ℕ → ℕ → List Item → List Item → List Item
unfolding replace_at
finish_loop runtime_name zero before items = items
finish_loop runtime_name (suc n) before items =
    finish_loop runtime_name n before (replace_at runtime_name n (get_elem? before n) items)

unfoldable pub collection_finish : ℕ → List Item → List Item
unfolding finish_loop
collection_finish runtime_name items = finish_loop runtime_name (length items) items items
