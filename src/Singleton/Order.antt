-- ===== src/Singleton/Order.antt =====
-- The order of seniority: older first, then by name, then by uid.
use Prim.Native.Char.{code}
use Prim.Native.Nat.{compare, Ordering}
use text.Mathlib.TextEquality.{codes_equal}
use openstudio_server_operat.Base.{
  ℕ, String, Bool, true, false, not, ◌&&◌, ◌||◌, ltb, ◌≡◌, refl, arith,
}
use openstudio_server_operat.Clock.{Time}

-- `s < t`, by code points
unfoldable pub text_before : String → String → Bool
text_before String.[] String.[] = false
text_before String.[] (String.◌∷◌ d t) = true
text_before (String.◌∷◌ c s) String.[] = false
text_before (String.◌∷◌ c s) (String.◌∷◌ d t) =
    ltb (code c) (code d) || (not (ltb (code d) (code c)) && text_before s t)

-- The sort key of `sort_crs_by_seniority`.
pub record Seniority : Type 0 where
  pub created : Time
  pub name : String
  pub uid : String

unfoldable pub is_senior : Seniority → Seniority → Bool
is_senior a b =
    ltb a.created b.created
    || (not (ltb b.created a.created)
        && (text_before a.name b.name
            || (not (text_before b.name a.name) && text_before a.uid b.uid)))

text_before-asym : (s t : String) → text_before s t ≡ true → text_before t s ≡ false
unfolding text_before
text_before-asym String.[] String.[] h = ground arith
text_before-asym String.[] (String.◌∷◌ d t) h = refl
text_before-asym (String.◌∷◌ c s) String.[] h = ground arith
text_before-asym (String.◌∷◌ c s) (String.◌∷◌ d t) h = ground (arith, text_before-asym s t)

-- What is before neither is before nothing between.
text_before_trans :
    (s t u : String) → text_before s t ≡ false → text_before t u ≡ false → text_before s u ≡ false
unfolding text_before
text_before_trans String.[] String.[] u h k = k
text_before_trans String.[] (String.◌∷◌ d t) u h k = ground arith
text_before_trans (String.◌∷◌ c s) t String.[] h k = refl
text_before_trans (String.◌∷◌ c s) String.[] (String.◌∷◌ e u) h k = ground arith
text_before_trans (String.◌∷◌ c s) (String.◌∷◌ d t) (String.◌∷◌ e u) h k =
    ground (arith, text_before_trans s t u)

pub is_senior-asym : (a b : Seniority) → is_senior a b ≡ true → is_senior b a ≡ false
unfolding is_senior
is_senior-asym a b h = ground (arith, text_before-asym a.name b.name, text_before-asym a.uid b.uid)

pub is_senior_trans :
    (a b c : Seniority) → is_senior a b ≡ false → is_senior b c ≡ false → is_senior a c ≡ false
unfolding is_senior
is_senior_trans a b c h k = ground (
  arith,
  text_before_trans a.name b.name c.name,
  text_before_trans a.uid b.uid c.uid,
  text_before_trans c.name a.name b.name,
  text_before_trans b.name c.name a.name,
)

text_before-connected : (s t : String) → text_before s t ≡ false → text_before t s ≡ false → s ≡ t
unfolding text_before
text_before-connected String.[] String.[] h k = refl
text_before-connected String.[] (String.◌∷◌ d t) h k = ground arith
text_before-connected (String.◌∷◌ c s) String.[] h k = ground arith
text_before-connected (String.◌∷◌ c s) (String.◌∷◌ d t) h k =
    path (codes_equal c d (same_code (code c) (code d) (ground arith) (ground arith)))
      (text_before-connected s t (ground arith) (ground arith))
  where
    same_code : (m n : ℕ) → ltb m n ≡ false → ltb n m ≡ false → compare m n ≡ Ordering.eq
    same_code m n h k = ground arith

    path : c ≡ d → s ≡ t → String.◌∷◌ c s ≡ String.◌∷◌ d t
    path p q = cc

-- Of two different keys one is senior.
pub is_senior-connected : (a b : Seniority) → is_senior a b ≡ false → is_senior b a ≡ false → a ≡ b
unfolding is_senior
is_senior-connected a b h k =
    ground (arith, text_before-connected a.name b.name, text_before-connected a.uid b.uid)
