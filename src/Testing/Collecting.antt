-- ===== src/Testing/Collecting.antt =====
-- The items of a session after `pytest_collection_finish`.
use tonio.Prelude.{
  ℕ, zero, suc, ◌≤◌, ◌<◌, ◌≡◌, refl, sym, ap, ◌∙◌, some, List, [], ◌∷◌, ◌++◌, arith, map, get_elem?,
  length, take, drop, if◌then◌else◌, Bool-cases, inl, inr,
}
use tonio.Testing.{Item, is_bare, new_item, splice, replace_at, finish_loop, collection_finish}

abbrev pub converted : ℕ → Item → Item
converted r i = if is_bare r i then new_item r i else i

-- Position `n` of a list: its item, the list from it on, and replacing it in a list that starts alike.
record At (n : ℕ) (before : List Item) : Type 0 where
  item : Item
  found : get_elem? before n ≡ some item
  onwards : drop n before ≡ item ∷ drop (suc n) before
  kept : (tail : List Item) → take (suc n) before ++ tail ≡ take n before ++ item ∷ tail
  spliced :
      (new tail : List Item)
      → splice n new (take (suc n) before ++ tail) ≡ take n before ++ (new ++ tail)

at : (n : ℕ) (before : List Item) → n < length before → At n before
unfolding splice
at n [] h = absurd (omega arith)
at zero (i ∷ is) h = record {
  item = i;
  found = refl;
  onwards = refl;
  kept = λ tail. refl;
  spliced = λ new tail. refl;
}
at (suc n) (i ∷ is) h =
    let a = at n is (omega arith) in
    record {
      item = a.item;
      found = a.found;
      onwards = a.onwards;
      kept = λ tail. ap (◌∷◌ i) (a.kept tail);
      spliced = λ new tail. ap (◌∷◌ i) (a.spliced new tail);
    }

replaced :
    (r n : ℕ) (before tail : List Item) (a : At n before)
    → replace_at r n (get_elem? before n) (take (suc n) before ++ tail)
      ≡ take n before ++ converted r a.item ∷ tail
unfolding replace_at
replaced r n before tail a = rw (a.found) (elim (Bool-cases (is_bare r a.item)) [
  | inl e ↦ rw (e, a.spliced (new_item r a.item ∷ []) tail) refl
  | inr e ↦ rw (e) (a.kept tail)
])

loop_lem :
    (r n : ℕ) (before : List Item)
    → n ≤ length before
    → finish_loop r n before (take n before ++ map (converted r) (drop n before))
      ≡ map (converted r) before
unfolding finish_loop
loop_lem r zero before h = refl
loop_lem r (suc n) before h =
    let a = at n before (omega arith) in
    ap (finish_loop r n before) (
      replaced r n before (map (converted r) (drop (suc n) before)) a
      ∙ ap (λ t. take n before ++ map (converted r) t) (sym a.onwards))
    ∙ loop_lem r n before (omega arith)

whole : (f : Item → Item) (xs : List Item) → take (length xs) xs ++ map f (drop (length xs) xs) ≡ xs
whole f [] = refl
whole f (x ∷ xs) = ap (◌∷◌ x) (whole f xs)

-- The loop over the positions from the last to the first, which splices the list of the session while it
-- goes, gives the list in which each item that needs the runtime and has no fixture for it is replaced
-- by its new item, and every other item is as it was, in the order they had.
pub collection_finish_lem :
    (r : ℕ) (items : List Item) → collection_finish r items ≡ map (converted r) items
unfolding collection_finish
collection_finish_lem r items =
    ap (finish_loop r (length items) items) (sym (whole (converted r) items))
    ∙ loop_lem r (length items) items (omega arith)
