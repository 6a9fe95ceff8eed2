-- ===== src/Store/Cap.antt =====
-- The cap on a status map: the eviction order of `_set_map_entry`, and what it does to the map.
use openstudio_server_operat.Base.{
  ℕ, ◌+◌, ◌-◌, String, Option, none, some, List, [], ◌∷◌, ◌++◌, leb, length, take, keep, member,
  not, if◌then◌else◌,
}
use openstudio_server_operat.Base.Dict.{Dict, lookup, insert, erase_all, keys}
use Prim.Native.String.{compare}
use text.Mathlib.Text.{is_le}

abbrev pub status_map_max_entries : ℕ
status_map_max_entries = 10000

-- `sorted(d)`: texts by their code points.
unfoldable pub insort : String → List String → List String
insort s [] = s ∷ []
insort s (t ∷ ts) = if is_le (compare s t) then s ∷ t ∷ ts else t ∷ insort s ts

unfoldable pub sorted : List String → List String
unfolding insort
sorted [] = []
sorted (s ∷ ss) = insort s (sorted ss)

-- Unprotected identifiers go first, protected ones only when no other is left.
unfoldable pub evicted_keys : List String → List String → List String
unfolding sorted
evicted_keys protected ks =
    take (length ks - status_map_max_entries + 1) (
      keep (λ k. not (member k protected)) (sorted ks)
      ++ keep (λ k. member k protected) (sorted ks))

-- What a merge patch with the encoded value leaves under its key, by what stands there.
abbrev pub merge_onto {ℓ} : {V : Type ℓ} → (V → V → V) → V → Option V → V
merge_onto merge encoded none = encoded
merge_onto merge encoded (some old) = merge encoded old

-- The map after the patch.
unfoldable pub capped_insert {ℓ} :
    {V : Type ℓ} → (V → V → V) → List String → String → V → Dict V → Dict V
unfolding evicted_keys
capped_insert merge protected key encoded d =
    let left = merge_onto merge encoded (lookup key d) in
    if leb status_map_max_entries (length d)
    then insert key left (erase_all (evicted_keys protected (keys d)) d)
    else insert key left d
