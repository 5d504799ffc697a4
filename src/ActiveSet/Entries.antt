-- ===== src/ActiveSet/Entries.antt =====
-- What `ActiveSet` and `ActiveGuard` of src/active_set.rs say of their map: `len`, `is_empty`, `get`,
-- `contains`, `snapshot`, `update` and `value`.
use mhttp.Common.{ℕ, Bool, true, false, Option, none, some, List, [], ◌∷◌, ◌==◌, if◌then◌else◌}
use mhttp.ActiveSet.{Inner, with_map}

module _ {Key : Type 0} {Info : Type 0} (same : Key → Key → Bool) where
  -- `HashMap::get`
  unfoldable pub map_get : Key → List (Key × Info) → Option Info
  map_get i [] = none
  map_get i ((j, x) ∷ m) = let rest = map_get i m in if same i j then some x else rest

  -- `get_mut`, and then the function that is given
  unfoldable pub map_update : Key → (Info → Info) → List (Key × Info) → List (Key × Info)
  map_update i f [] = []
  map_update i f ((j, x) ∷ m) =
      let rest = map_update i f m in if same i j then (j, f x) ∷ m else (j, x) ∷ rest

  abbrev get_in : Key → Option (List (Key × Info)) → Option Info
  get_in i none = none
  get_in i (some m) = map_get i m

  -- `ActiveSet::get`
  unfoldable pub get : Key → Inner Key Info → Option Info
  unfolding map_get
  get i inner = get_in i inner.map

  -- `ActiveGuard::value`, with the id of the guard
  abbrev pub value : Key → Inner Key Info → Option Info
  value i inner = get i inner

  unfoldable pub contains : Key → Inner Key Info → Bool
  unfolding get
  contains i inner = elim (get i inner) [ none ↦ false | some _ ↦ true ]

  -- `ActiveGuard::update`
  unfoldable pub update : Key → (Info → Info) → Inner Key Info → Inner Key Info
  unfolding map_update
  update i f inner = with_map same (map_update i f) inner

module _ {Key : Type 0} {Info : Type 0} where
  unfoldable pub len : Inner Key Info → ℕ
  len inner = inner.count

  unfoldable pub is_empty : Inner Key Info → Bool
  unfolding len
  is_empty inner = len inner == 0

  unfoldable pub snapshot : Inner Key Info → List (Key × Info)
  snapshot inner = elim inner.map [ none ↦ [] | some m ↦ m ]
