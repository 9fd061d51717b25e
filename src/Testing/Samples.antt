-- ===== src/Testing/Samples.antt =====
-- A session of two items, of which the first is a coroutine with the marker and without the fixture.
use tonio.Prelude.{◌≡◌, true, false, [], ◌∷◌, map}
use tonio.Testing.{Item, collection_finish}
use tonio.Testing.Collecting.{converted, collection_finish_lem}

abbrev bare : Item
bare = record {
  is_function = true;
  coroutine = true;
  marked = true;
  name = 1;
  names_closure = 7 ∷ [];
  has_callspec = false;
}

abbrev plain : Item
plain = record bare { coroutine = false; name = 2 }

collection_finish_lem_example :
    collection_finish 3 (bare ∷ plain ∷ []) ≡ map (converted 3) (bare ∷ plain ∷ [])
collection_finish_lem_example = collection_finish_lem 3 (bare ∷ plain ∷ [])
