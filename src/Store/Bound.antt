-- ===== src/Store/Bound.antt =====
-- The cap on a status map holds after every write.
use openstudio_server_operat.Base.{
  ◌+◌, ◌-◌, ◌≤◌, String, true, false, List, [], ◌∷◌, ◌≡◌, refl, sym, ◌∙◌, arith, length, keep,
  member, not, ◌==◌, Distinct, ◌&&◌,
}
use openstudio_server_operat.Base.Dict.{Dict, lookup, erase, erase_all, keys, length-insert-le}
use openstudio_server_operat.Store.Cap.{
  status_map_max_entries, sorted, evicted_keys, merge_onto, capped_insert,
}
use openstudio_server_operat.Store.Orders.{
  member-sorted, length-sorted, Distinct-sorted, member-parted, member-keep, Distinct-keep,
  Distinct-append, length-parted, member-take, member-take_append, Distinct-take, length-take,
}

module _ {V : Type 0} where
  member-keys-erase :
      (s k : String) (d : Dict V) → member s (keys (erase k d)) ≡ member s (keys d) && not (s == k)
  unfolding keys erase
  member-keys-erase s k [] = refl
  member-keys-erase s k (e ∷ d) = ground (arith, member-keys-erase s k d)

  Distinct-keys-erase : (k : String) (d : Dict V) → Distinct (keys d) → Distinct (keys (erase k d))
  unfolding keys erase
  Distinct-keys-erase k [] h = h
  Distinct-keys-erase k (e ∷ d) h =
      ground (arith, Distinct-keys-erase k d, member-keys-erase e.0 k d)

  length-erase_absent :
      (k : String) (d : Dict V) → member k (keys d) ≡ false → length (erase k d) ≡ length d
  unfolding keys erase
  length-erase_absent k [] m = refl
  length-erase_absent k (e ∷ d) m = ground (arith, length-erase_absent k d)

  length-erase_present :
      (k : String) (d : Dict V)
      → Distinct (keys d)
      → member k (keys d) ≡ true
      → length (erase k d) + 1 ≡ length d
  unfolding keys erase
  length-erase_present k [] h m = ground arith
  length-erase_present k (e ∷ d) h m =
      ground (arith, length-erase_present k d, length-erase_absent k d)

  erase_all-cons :
      (k : String) (ks : List String) (d : Dict V) → erase_all (k ∷ ks) d ≡ erase_all ks (erase k d)
  unfolding erase_all erase
  erase_all-cons k ks [] = refl
  erase_all-cons k ks (e ∷ d) = ground (arith, erase_all-cons k ks d)

  erase_all-nil : (d : Dict V) → length (erase_all [] d) ≡ length d
  unfolding erase_all
  erase_all-nil [] = refl
  erase_all-nil (e ∷ d) = omega (arith, erase_all-nil d)

  -- The keys to be dropped are keys of the map, each once: so many entries go.
  length-erase_all :
      (ks : List String) (d : Dict V)
      → Distinct (keys d)
      → Distinct ks
      → ((s : String) → member s ks ≡ true → member s (keys d) ≡ true)
      → length (erase_all ks d) + length ks ≡ length d
  length-erase_all [] d h g inside = omega (arith, erase_all-nil d)
  length-erase_all (k ∷ ks) d h g inside = rw (erase_all-cons k ks d) (
      omega (
        arith,
        length-erase_present k d h (inside k (ground arith)),
        length-erase_all ks (erase k d) (Distinct-keys-erase k d h) g.1
            (λ s m. ground (arith, member-keys-erase s k d, inside s, g.0)),
      ))

evicted-Distinct : (protected ks : List String) → Distinct ks → Distinct (evicted_keys protected ks)
unfolding evicted_keys
evicted-Distinct protected ks h = Distinct-take _ _ (
    Distinct-append _ _ (Distinct-keep _ _ (Distinct-sorted ks h))
      (Distinct-keep _ _ (Distinct-sorted ks h))
      (λ s m. ground (
        arith,
        member-keep (λ k. not (member k protected)) s (sorted ks),
        member-keep (λ k. member k protected) s (sorted ks),
      )))

evicted-member :
    (protected ks : List String) (s : String)
    → member s (evicted_keys protected ks) ≡ true
    → member s ks ≡ true
unfolding evicted_keys
evicted-member protected ks s m =
    sym (member-sorted s ks)
    ∙ sym (member-parted (λ k. member k protected) s (sorted ks))
    ∙ member-take _ s _ m

length-evicted :
    (protected ks : List String)
    → status_map_max_entries ≤ length ks
    → length (evicted_keys protected ks) ≡ length ks - status_map_max_entries + 1
unfolding evicted_keys
length-evicted protected ks h =
    length-take _ _
      (omega (arith, length-parted (λ k. member k protected) (sorted ks), length-sorted ks))

length-keys : {V : Type 0} (d : Dict V) → length (keys d) ≡ length d
unfolding keys
length-keys [] = refl
length-keys (e ∷ d) = omega (arith, length-keys d)

-- However large the map was, and whichever keys are protected: a write that adds a value leaves at
-- most `STATUS_MAP_MAX_ENTRIES` entries. (A map's keys are distinct.)
pub capped_insert-le_cap :
    {V : Type 0} (merge : V → V → V) (protected : List String) (key : String) (encoded : V)
    (d : Dict V)
    → Distinct (keys d)
    → length (capped_insert merge protected key encoded d) ≤ status_map_max_entries
unfolding capped_insert
capped_insert-le_cap merge protected key encoded d h =
    let left = merge_onto merge encoded (lookup key d) in
    let ks = evicted_keys protected (keys d) in
    ground (
      arith,
      length-insert-le key left d,
      length-insert-le key left (erase_all ks d),
      length-erase_all ks d h (evicted-Distinct protected (keys d) h)
          (evicted-member protected (keys d)),
      length-evicted protected (keys d),
      length-keys d,
    )

evicted_after_the_rest :
    (protected ks : List String) (k j : String)
    → member k protected ≡ true
    → member k (evicted_keys protected ks) ≡ true
    → member j ks ≡ true
    → member j protected ≡ false
    → member j (evicted_keys protected ks) ≡ true
unfolding evicted_keys
evicted_after_the_rest protected ks k j p m i u =
    member-take_append _ (keep (λ x. not (member x protected)) (sorted ks))
      (keep (λ x. member x protected) (sorted ks)) k j m
      (ground (arith, member-keep (λ x. not (member x protected)) k (sorted ks)))
      (ground
        (arith, member-keep (λ x. not (member x protected)) j (sorted ks), member-sorted j ks))

-- Protected keys go last: as long as some key of the map that is not protected escapes eviction, no
-- protected key is evicted.
pub evicted_keys-protected_last :
    (protected ks : List String) (k j : String)
    → member k protected ≡ true
    → member j ks ≡ true
    → member j protected ≡ false
    → member j (evicted_keys protected ks) ≡ false
    → member k (evicted_keys protected ks) ≡ false
evicted_keys-protected_last protected ks k j p i u e =
    ground (arith, evicted_after_the_rest protected ks k j)
