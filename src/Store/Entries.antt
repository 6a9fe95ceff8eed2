-- ===== src/Store/Entries.antt =====
-- What a write of one entry of a status map does: the entry is stored and the others stay, as long
-- as the map is below its cap, or the write raises and nothing is changed.
use openstudio_server_operat.Base.{
  ◌+◌, ◌≤◌, ◌<◌, true, false, ap, sym, ◌∷◌, List, ◌≡◌, refl, arith, some, none, Option, String,
  if◌then◌else◌, ◌==◌, length, Bool, str_dec, is_yes,
}
use openstudio_server_operat.Base.Dict.{
  Dict, lookup, lookup-insert, length-insert-le, length-erase_all-le, has, erase, lookup-erase,
  length-erase-le,
}
use openstudio_server_operat.Status.{Status, MapField}
use openstudio_server_operat.World.{Env, World, Call}
use openstudio_server_operat.World.Grows.{Grows, same, more, harmless, Untouched}
use openstudio_server_operat.World.Triple.{After, returns, After-when, exec_gets, exec_call}
use openstudio_server_operat.Store.Scalars.{exec_read}
use openstudio_server_operat.Store.{set_map_entry, clear_map_entry, write_map, is_entry}
use openstudio_server_operat.Store.Cap.{
  merge_onto, capped_insert, status_map_max_entries, evicted_keys,
}
use openstudio_server_operat.Base.Dict

module _ {V : Type 0} (map_of : Status → Dict V) (put : Dict V → Status → Status)
    (key : String) where
  pub record Wrote (v : Option V) (w w' : World) : Type 0 where
    pub rest : w' ≡ record w { status = put (map_of w'.status) w.status; trace = w'.trace }
    pub grown : Grows harmless w.trace w'.trace
    pub entries :
        length (map_of w.status) < status_map_max_entries
        → (j : String)
        → lookup j (map_of w'.status) ≡ (if j == key then v else lookup j (map_of w.status))
    pub larger : length (map_of w'.status) ≤ length (map_of w.status) + 1

pub length-capped_insert-le :
    {V : Type 0} (merge : V → V → V) (protected : List String) (key : String) (v : V) (d : Dict V)
    → length (capped_insert merge protected key v d) ≤ length d + 1
unfolding capped_insert
length-capped_insert-le merge protected key v d =
    let left = merge_onto merge v (lookup key d) in
    ground (
      arith,
      length-insert-le key left d,
      length-insert-le key left (Dict.erase_all (evicted_keys protected (Dict.keys d)) d),
      length-erase_all-le (evicted_keys protected (Dict.keys d)) d,
    )

-- The value that a write leaves where `old` stood.
abbrev pub after_merge : {V : Type 0} → (V → V → V) → V → Option V → V
after_merge merge v none = v
after_merge merge v (some old) = merge v old

after_merge-merge_onto :
    {V : Type 0} (merge : V → V → V) (v : V) (o : Option V)
    → merge_onto merge v o ≡ after_merge merge v o
after_merge-merge_onto merge v none = refl
after_merge-merge_onto merge v (some old) = refl

pub lookup-capped_insert :
    {V : Type 0} (merge : V → V → V) (protected : List String) (key : String) (v : V) (d : Dict V)
    (j : String)
    → length d < status_map_max_entries
    → lookup j (capped_insert merge protected key v d)
      ≡ (if j == key then some (after_merge merge v (lookup key d)) else lookup j d)
unfolding capped_insert
lookup-capped_insert merge protected key v d j h =
    rw (sym (after_merge-merge_onto merge v (lookup key d)))
      (ground (arith, lookup-insert j key (merge_onto merge v (lookup key d)) d))

-- An entry that is there already is what the merge would leave.
entry_merged :
    {V : Type 0} (dec : Discrete V) (merge : V → V → V) (key : String) (v : V) (d : Dict V)
    → ((v : V) → merge v v ≡ v)
    → is_entry dec key v d ≡ true
    → after_merge merge v (lookup key d) ≡ v
unfolding is_entry
entry_merged {V} dec merge key v d self h = split (lookup key d) h
  where
    by_test : (v' : V) (t : Dec (v' ≡ v)) → is_yes t ≡ true → merge v v' ≡ v
    by_test v' (yes p) h = rw p (self v)
    by_test v' (no p) h = cc

    split :
        (o : Option V)
        → elim o as (λ _. Bool) [ none ↦ false | some v' ↦ is_yes (dec v' v) ] ≡ true
        → after_merge merge v o ≡ v
    split none h = refl
    split (some v') h = by_test v' (dec v' v) h

entry_same :
    {V : Type 0} (dec : Discrete V) (key : String) (v : V) (d : Dict V) (j : String)
    → is_entry dec key v d ≡ true
    → lookup j d ≡ (if j == key then some v else lookup j d)
unfolding is_entry
entry_same dec key v d j h =
    elim (str_dec j key) as (λ p. lookup j d ≡ (if is_yes p then some v else lookup j d)) [
      | yes p ↦ rw p (ground arith)
      | no p ↦ refl
    ]

entry_absent :
    {V : Type 0} (key : String) (d : Dict V) (j : String)
    → has key d ≡ false
    → lookup j d ≡ (if j == key then none else lookup j d)
unfolding has
entry_absent key d j h =
    elim (str_dec j key) as (λ p. lookup j d ≡ (if is_yes p then none else lookup j d)) [
      | yes p ↦ rw p (ground arith)
      | no p ↦ refl
    ]

module _ (env : Env) {V : Type 0} (field : MapField) (map_of : Status → Dict V)
    (put : Dict V → Status → Status) (map_of-put : (d : Dict V) (s : Status) → map_of (put d s) ≡ d)
    (put-map_of : (s : Status) → put (map_of s) s ≡ s) (key : String) (w : World) where
  -- One shape for both kinds of write: a patched map, or a map that was right already.
  Wrote-patched :
      (v : Option V) (d : Dict V)
      → (length (map_of w.status) < status_map_max_entries
          → (j : String) → lookup j d ≡ (if j == key then v else lookup j (map_of w.status)))
      → length d ≤ length (map_of w.status) + 1
      → After
          (λ _ w'. Wrote map_of put key v w w')
          (Untouched w)
          (write_map env field put key d (record w { trace = (Call.read_status, true) ∷ w.trace }))
  unfolding write_map
  Wrote-patched v d entries larger =
      let t = (Call.patch_entry field key, true) ∷ (Call.read_status, true) ∷ w.trace in
      let s' = put d w.status in
      exec_call env (Call.patch_entry field key) _ _
        (returns (record {
          rest =
              ap (λ (x : Dict V). record w { status = put x w.status; trace = t })
                (sym (map_of-put d w.status));
          grown = more _ _ refl (more _ _ refl same);
          entries = λ h j. rw (map_of-put d w.status) (entries h j);
          larger = rw (map_of-put d w.status) larger;
        }))
        (record { rest = refl; grown = more _ _ refl (more _ _ refl same) })

  Wrote-nothing :
      (v : Option V)
      → ((j : String)
          → lookup j (map_of w.status) ≡ (if j == key then v else lookup j (map_of w.status)))
      → Wrote map_of put key v w (record w { trace = (Call.read_status, true) ∷ w.trace })
  Wrote-nothing v entries = record {
    rest =
        ap (λ (s : Status). record w { status = s; trace = (Call.read_status, true) ∷ w.trace })
          (sym (put-map_of w.status));
    grown = more _ _ refl same;
    entries = λ _. entries;
    larger = omega arith;
  }

  -- In a map below its cap, a write that returns leaves under its key the new value, merged into the one that
  -- stood there if there was one, and keeps every other entry. At the cap too it changes no other map and adds one
  -- entry at most; a write that raises has changed nothing in the status. The field's reader and writer must fit each
  -- other, and a value merged into itself must be itself.
  pub set_map_entry-After :
      (dec : Discrete V) (merge : V → V → V) (v : V)
      → ((v : V) → merge v v ≡ v)
      → After
          (λ _ w'.
            Wrote map_of put key (some (after_merge merge v (lookup key (map_of w.status)))) w w')
          (Untouched w)
          (set_map_entry env dec merge field map_of put key v w)
  unfolding set_map_entry
  set_map_entry-After dec merge v self =
      exec_read env map_of _ w
        (exec_gets _ _ _ (
          After-when _ _ _
            (λ fresh.
              Wrote-patched _ _
                (λ h j. lookup-capped_insert merge (w.protected field) key v (map_of w.status) j h)
                (length-capped_insert-le merge (w.protected field) key v (map_of w.status)))
            (λ old. rw (entry_merged dec merge key v (map_of w.status) self (ground arith)) (
              Wrote-nothing (some v)
                (λ j. entry_same dec key v (map_of w.status) j (ground arith))))))
        (record { rest = refl; grown = more _ _ refl same })

  -- In a map below its cap, a removal that returns leaves the key absent and keeps every other
  -- entry; it never changes another map, and one that raises has changed nothing in the status. The
  -- field's reader and writer must fit each other.
  pub clear_map_entry-After :
      After
        (λ _ w'. Wrote map_of put key none w w')
        (Untouched w)
        (clear_map_entry env field map_of put key w)
  unfolding clear_map_entry
  clear_map_entry-After =
      exec_read env map_of _ w
        (After-when _ _ _
          (λ present.
            Wrote-patched none _ (λ _ j. lookup-erase j key (map_of w.status))
              (omega (arith, length-erase-le key (map_of w.status))))
          (λ absent. Wrote-nothing none (λ j. entry_absent key (map_of w.status) j absent)))
        (record { rest = refl; grown = more _ _ refl same })
