-- ===== src/Call/Extras.antt =====
-- The extras of a call (src/server.rs) are kept under their trimmed names in lower case.
use mhttp.Common.{
  ◌≡◌, refl, some, Bytes, bytes_eq, bytes_eq_iff, if◌then◌else◌, Bool-cases, inl, inr,
}
use mhttp.Common.HashMap.{lookup-insert}
use mhttp.Call.{HttpCall, key_of, joined, set_extras, get_extras}

module _ {H : Type 0} where
  -- A value that is set is joined behind the one that is held under the trimmed name in lower case;
  -- what any other name finds does not change.
  pub get_extras-set_extras :
      (key name value : Bytes) (call : HttpCall H)
      → get_extras name (set_extras key value call) ≡ (
          if bytes_eq (key_of key) name
          then some (joined value (get_extras name call))
          else get_extras name call)
  unfolding get_extras set_extras
  get_extras-set_extras key name value call = elim (Bool-cases (bytes_eq (key_of key) name)) [
    | inl e ↦
        let (same, _) = bytes_eq_iff (key_of key) name in
        rw (lookup-insert (key_of key) name, e, same e) refl
    | inr e ↦ rw (lookup-insert (key_of key) name, e) refl
  ]
