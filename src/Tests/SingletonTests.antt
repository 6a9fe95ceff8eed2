-- ===== src/Tests/SingletonTests.antt =====
-- The singleton guard and the per-CR caches at work.
use mathlib.Core.List.{Memᴰ}
use mathlib.Core.List.Memᴰ.{head, tail}
use openstudio_server_operat.Base.{
  ℕ, none, some, List, [], ◌∷◌, ◌≡◌, refl, ap, ◌∙◌, sym, arith, str_dec, inl, inr, ◌==◌,
  if◌then◌else◌,
}
use openstudio_server_operat.Singleton.{
  Cr, stamp, or_empty, ok, seniority, resolve_active_cr, sort_crs_by_seniority, by_seniority,
  insort, is_active, same_cr, gated, enforce, same_snapshot, Snapshot, conflict, active,
}
use openstudio_server_operat.Singleton.Order.{text_before, is_senior}
use openstudio_server_operat.Singleton.Election.{
  Resolved, Served, resolve_active_cr-Resolved, resolve_active_cr-same, gated-Served, Identified,
}
use openstudio_server_operat.Singleton.Noise.{enforce-silent}
use openstudio_server_operat.CrCache.{Cache, get_or_create}
use openstudio_server_operat.CrCache.Lookups.{after, get_or_create-isolated}

abbrev old : Cr
old = record { name = some "b"; uid = some "u1"; creation = stamp 10 }

abbrev new : Cr
new = record { name = some "a"; uid = some "u2"; creation = stamp 20 }

abbrev one_way : List Cr
one_way = old ∷ new ∷ []

abbrev other_way : List Cr
other_way = new ∷ old ∷ []

program : Unit {0}
unfolding resolve_active_cr sort_crs_by_seniority by_seniority insort is_active same_cr gated
    enforce same_snapshot text_before is_senior str_dec
program = tt

elects_old : resolve_active_cr other_way ≡ ok (some old)
unfolding program
elects_old = refl

elects_old_too : resolve_active_cr one_way ≡ ok (some old)
unfolding program
elects_old_too = refl

resolve_active_cr-Resolved_example : Resolved other_way (resolve_active_cr other_way)
resolve_active_cr-Resolved_example = resolve_active_cr-Resolved other_way

swap : (x : Cr) → Memᴰ x one_way → Memᴰ x other_way
swap x (head e) = tail (head e)
swap x (tail (head e)) = head e
swap x (tail (tail m)) = elim m [ ]

swap_back : (x : Cr) → Memᴰ x other_way → Memᴰ x one_way
swap_back x (head e) = tail (head e)
swap_back x (tail (head e)) = head e
swap_back x (tail (tail m)) = elim m [ ]

resolve_active_cr-same_example : seniority old ≡ seniority old
resolve_active_cr-same_example =
    resolve_active_cr-same one_way other_way old old swap swap_back elects_old_too elects_old

identified : Identified one_way
unfolding program
identified x (head e) = ap (λ c. or_empty c.uid == "") e
identified x (tail (head e)) = ap (λ c. or_empty c.uid == "") e
identified x (tail (tail m)) = elim m [ ]

gated-Served_example : (w : Cr) × Served one_way w
gated-Served_example = gated-Served one_way old (head refl) refl identified

clash : {P : Type 0} → seniority old ≡ seniority new → P
clash p = absurd (apart (ap (λ k. k.created) p))
  where
    apart : (h : ◌≡◌ {A = ℕ} 10 20) → ⊥
    apart = omega arith

keys : (x y : Cr) → Memᴰ x one_way → Memᴰ y one_way → seniority x ≡ seniority y → x ≡ y
keys x y (head e) (head f) s = e ∙ sym f
keys x y (head e) (tail (head f)) s =
    clash (sym (ap (λ c. seniority c) e) ∙ s ∙ ap (λ c. seniority c) f)
keys x y (tail (head e)) (head f) s =
    clash (sym (ap (λ c. seniority c) f) ∙ sym s ∙ ap (λ c. seniority c) e)
keys x y (tail (head e)) (tail (head f)) s = e ∙ sym f
keys x y (tail (tail m)) n s = elim m [ ]
keys x y m (tail (tail n)) s = elim n [ ]

-- Two custom resources: the second one is told that it is ignored, and the first one that it is served.
abbrev seen : Snapshot
seen = (some "b", "a" ∷ [])

told : enforce one_way none ≡ ok (some seen, conflict new ∷ active old ∷ [])
unfolding program
told = refl

enforce-silent_example : enforce other_way (some seen) ≡ ok (some seen, [])
enforce-silent_example =
    enforce-silent one_way other_way swap swap_back keys none (some seen)
      (conflict new ∷ active old ∷ []) refl told

-- An object of another uid takes over the name, after a lookup by a body without one.
abbrev empty_cache : Cache ℕ
empty_cache key = none

get_or_create-isolated_example :
    let (v, cache) = get_or_create ("ns", "cr") (some "u1") 1 empty_cache in
    (get_or_create
      ("ns", "cr")
      (some "u2")
      3
      (after (record { key = ("ns", "cr"); uid = none; fresh = 2 } ∷ []) cache)).0
    ≡ (if "u1" == "u2" then v else 3)
get_or_create-isolated_example =
    get_or_create-isolated ("ns", "cr") "u1" "u2" 1 3
      (record { key = ("ns", "cr"); uid = none; fresh = 2 } ∷ []) empty_cache (inr (inl refl), tt)
