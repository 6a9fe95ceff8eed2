-- ===== src/Singleton.antt =====
-- The singleton guard (src/openstudio_operator/singleton.py): which of several custom resources the
-- operator serves, the gate that each handler runs behind, and the change-gated Events; in the child modules
-- also the watch events. Logs and metrics are not modelled.
pub mod Order
pub mod Election
pub mod Noise
pub mod RedisEvents
pub mod Watch
pub mod Credentials
use openstudio_server_operat.Base.{
  ℕ, String, Bool, true, false, Option, none, some, List, [], ◌∷◌, ◌++◌, map, not, ◌&&◌, ◌||◌, ltb,
  keep, any, member, if◌then◌else◌, ◌==◌,
}
use openstudio_server_operat.Clock.{Time}
use Order.{Seniority, is_senior}

-- `metadata.creationTimestamp`: absent or empty, a time, or what `parse_iso_utc` rejects with a `ValueError`.
pub data Stamp : Type 0 where
  missing unparseable : Stamp
  stamp : Time → Stamp

-- A custom resource by the metadata that the guard reads; an absent field is `none`.
pub record Cr : Type 0 where
  pub name : Option String
  pub uid : Option String
  pub creation : Stamp

-- `str(field or "")`
abbrev pub or_empty : Option String → String
or_empty none = ""
or_empty (some s) = s

-- `_cr_name`
abbrev pub cr_name : Cr → String
cr_name cr = if or_empty cr.name == "" then "<unnamed>" else or_empty cr.name

-- `datetime.max`, in microseconds
abbrev pub missing_created : Time
missing_created = 253402300799999999

-- The sort key's time; none where the parse raises `SingletonGuardError`.
abbrev pub created_of : Cr → Option Time
created_of cr = elim cr.creation [
  | missing ↦ some missing_created
  | unparseable ↦ none
  | stamp t ↦ some t
]

abbrev pub at_of : Cr → Time
at_of cr = elim cr.creation [ missing ↦ missing_created | unparseable ↦ 0 | stamp t ↦ t ]

abbrev pub seniority : Cr → Seniority
seniority cr = record { created = at_of cr; name = or_empty cr.name; uid = or_empty cr.uid }

abbrev pub parses : Cr → Bool
parses cr = elim cr.creation [ missing ↦ true | unparseable ↦ false | stamp t ↦ true ]

-- `name == name`, on fields that may be absent
abbrev pub same_field : Option String → Option String → Bool
same_field none none = true
same_field (some s) (some t) = s == t
same_field _ _ = false

-- `_same_cr`
unfoldable pub same_cr : Cr → Cr → Bool
same_cr a b =
    if not (or_empty a.uid == "") && not (or_empty b.uid == "")
    then or_empty a.uid == or_empty b.uid
    else same_field a.name b.name

-- `sorted` keeps the order of what it cannot tell apart.
unfoldable pub insort : Cr → List Cr → List Cr
insort x [] = x ∷ []
insort x (y ∷ ys) = if is_senior (seniority y) (seniority x) then y ∷ insort x ys else x ∷ y ∷ ys

unfoldable pub by_seniority : List Cr → List Cr
unfolding insort
by_seniority [] = []
by_seniority (x ∷ xs) = insort x (by_seniority xs)

abbrev pub all_parse : List Cr → Bool
all_parse [] = true
all_parse (x ∷ xs) = parses x && all_parse xs

-- The computation, or `SingletonGuardError`.
pub data Guarded (A : Type 0) : Type 0 where
  ok : A → Guarded A
  guard_error : Guarded A

unfoldable pub sort_crs_by_seniority : List Cr → Guarded (List Cr)
sort_crs_by_seniority items = if all_parse items then ok (by_seniority items) else guard_error

-- `ordered[0] if ordered else None`
abbrev pub first_of : List Cr → Option Cr
first_of [] = none
first_of (x ∷ xs) = some x

unfoldable pub resolve_active_cr : List Cr → Guarded (Option Cr)
resolve_active_cr items = elim (sort_crs_by_seniority items) [
  | ok ordered ↦ ok (first_of ordered)
  | guard_error ↦ guard_error
]

-- `winner is not None and _same_cr(body, winner)`
abbrev pub is_winner : Cr → Option Cr → Bool
is_winner body none = false
is_winner body (some winner) = same_cr body winner

-- `is_active`, once the list of the namespace is known.
unfoldable pub is_active : List Cr → Cr → Guarded Bool
is_active items body = elim (resolve_active_cr items) [
  | ok winner ↦ ok (is_winner body winner)
  | guard_error ↦ guard_error
]

-- `_gated`: the handler's tick runs only for the custom resource that is served. There is no body or no
-- namespace, or the list fails with an exception that is caught: the tick is skipped.
unfoldable pub gated : {A : Type 0} → Option Cr → Option (List Cr) → A → Option A
gated none items tick = none
gated (some body) none tick = none
gated (some body) (some items) tick = elim (is_active items body) [
  | ok active ↦ if active then some tick else none
  | guard_error ↦ none
]

-- `_last_state`: the served one's name, and the set of the others' names.
abbrev pub Snapshot : Type 0
Snapshot = Option String × List String

pub data GuardEvent : Type 0 where
  conflict active : Cr → GuardEvent

abbrev pub subset : List String → List String → Bool
subset [] ts = true
subset (s ∷ ss) ts = member s ts && subset ss ts

-- `==` of snapshots: the sets are equal as sets.
unfoldable pub same_snapshot : Snapshot → Snapshot → Bool
same_snapshot a b = same_field a.0 b.0 && (subset a.1 b.1 && subset b.1 a.1)

abbrev pub is_known : Snapshot → Option Snapshot → Bool
is_known s none = false
is_known s (some last) = same_snapshot s last

abbrev pub losers : Option Cr → List Cr → List Cr
losers winner = keep (λ cr. not (is_winner cr winner))

abbrev pub snapshot : Option Cr → List Cr → Snapshot
snapshot winner items =
    (elim winner [ none ↦ none | some w ↦ some (cr_name w) ], map cr_name (losers winner items))

-- The Events of a new snapshot: none without losers.
abbrev pub guard_events : Option Cr → List Cr → List GuardEvent
guard_events none lost = []
guard_events (some winner) [] = []
guard_events (some winner) (l ∷ ls) = map conflict (l ∷ ls) ++ (active winner ∷ [])

-- `enforce`, on the `_last_state` that is kept: the state after it, and the Events.
unfoldable pub enforce : List Cr → Option Snapshot → Guarded (Option Snapshot × List GuardEvent)
unfolding same_snapshot
enforce items last = elim (resolve_active_cr items) [
  | ok winner ↦
      if is_known (snapshot winner items) last
      then ok (last, [])
      else ok (some (snapshot winner items), guard_events winner (losers winner items))
  | guard_error ↦ guard_error
]
