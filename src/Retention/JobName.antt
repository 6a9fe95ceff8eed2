-- ===== src/Retention/JobName.antt =====
-- `archival_job_name` of src/openstudio_operator/archival.py: the deterministic name of an analysis's
-- archival Job. The SHA-256 digest and `str.lower` are library code and parameters.
use Prim.Native.Char.{Char, code}
use openstudio_server_operat.Base.Texts.{append, size, size-append}
use openstudio_server_operat.Base.{
  ℕ, zero, suc, ◌≤◌, String, Bool, true, false, ◌≡◌, refl, ◌&&◌, ◌||◌, leb, if◌then◌else◌, arith,
}

-- `s[:n]`
unfoldable pub cut_at : ℕ → String → String
cut_at zero s = ""
cut_at (suc n) String.[] = ""
cut_at (suc n) (String.◌∷◌ c s) = String.◌∷◌ c (cut_at n s)

abbrev between : ℕ → ℕ → Char → Bool
between a b c = leb a (code c) && leb (code c) b

abbrev is_dash : Char → Bool
is_dash = between 45 45

-- `[a-z0-9-]`
abbrev pub is_label_char : Char → Bool
is_label_char c = between 97 122 c || (between 48 57 c || is_dash c)

-- `re.sub(r"[^a-z0-9-]+", "-", s)`, within a run of other characters or not
unfoldable pub dashed : Bool → String → String
unfolding append
dashed in_run String.[] = ""
dashed in_run (String.◌∷◌ c s) =
    let kept = String.◌∷◌ c (dashed false s) in
    let rest = dashed true s in
    if is_label_char c then kept else if in_run then rest else append "-" rest

-- `s.lstrip("-")`
unfoldable pub lstrip : String → String
lstrip String.[] = ""
lstrip (String.◌∷◌ c s) = let rest = lstrip s in if is_dash c then rest else String.◌∷◌ c s

abbrev is_empty : String → Bool
is_empty String.[] = true
is_empty (String.◌∷◌ c s) = false

-- `s.rstrip("-")`
unfoldable pub rstrip : String → String
rstrip String.[] = ""
rstrip (String.◌∷◌ c s) =
    let rest = rstrip s in if is_dash c && is_empty rest then "" else String.◌∷◌ c rest

unfoldable pub all_label : String → Bool
all_label String.[] = true
all_label (String.◌∷◌ c s) = is_label_char c && all_label s

module _ (hexdigest lower : String → String) where
  abbrev pub name_of : String → String → String
  name_of digest sanitized =
      if is_empty sanitized
      then append "oscm-archive-" digest
      else append "oscm-archive-" (append (rstrip (cut_at 41 sanitized)) (append "-" digest))

  unfoldable pub archival_job_name : String → String
  archival_job_name analysis_id =
      name_of (cut_at 8 (hexdigest analysis_id))
        (rstrip (lstrip (dashed false (lower analysis_id))))

size-cut_at : (n : ℕ) (s : String) → size (cut_at n s) ≤ n
unfolding size cut_at
size-cut_at zero s = omega arith
size-cut_at (suc n) String.[] = omega arith
size-cut_at (suc n) (String.◌∷◌ c s) = omega (arith, size-cut_at n s)

size-rstrip : (s : String) → size (rstrip s) ≤ size s
unfolding size rstrip
size-rstrip String.[] = omega arith
size-rstrip (String.◌∷◌ c s) = ground (arith, size-rstrip s)

all_label-append : (s t : String) → all_label (append s t) ≡ all_label s && all_label t
unfolding all_label append
all_label-append String.[] t = refl
all_label-append (String.◌∷◌ c s) t = ground (arith, all_label-append s t)

all_label-cut_at : (n : ℕ) (s : String) → all_label s ≡ true → all_label (cut_at n s) ≡ true
unfolding all_label cut_at
all_label-cut_at zero s h = refl
all_label-cut_at (suc n) String.[] h = refl
all_label-cut_at (suc n) (String.◌∷◌ c s) h = ground (arith, all_label-cut_at n s)

all_label-rstrip : (s : String) → all_label s ≡ true → all_label (rstrip s) ≡ true
unfolding all_label rstrip
all_label-rstrip String.[] h = refl
all_label-rstrip (String.◌∷◌ c s) h = ground (arith, all_label-rstrip s)

all_label-lstrip : (s : String) → all_label s ≡ true → all_label (lstrip s) ≡ true
unfolding all_label lstrip
all_label-lstrip String.[] h = refl
all_label-lstrip (String.◌∷◌ c s) h = ground (arith, all_label-lstrip s)

all_label-dashed : (in_run : Bool) (s : String) → all_label (dashed in_run s) ≡ true
unfolding all_label dashed append
all_label-dashed in_run String.[] = refl
all_label-dashed in_run (String.◌∷◌ c s) =
    ground (arith, all_label-dashed false s, all_label-dashed true s)

prefix-size : size "oscm-archive-" ≡ 13
unfolding size
prefix-size = refl

dash-size : size "-" ≡ 1
unfolding size
dash-size = refl

prefix-label : all_label "oscm-archive-" ≡ true
unfolding all_label
prefix-label = refl

dash-label : all_label "-" ≡ true
unfolding all_label
dash-label = refl

module _ (hexdigest lower : String → String) (digest sanitized : String) where
  name-size : size digest ≤ 8 → size (name_of hexdigest lower digest sanitized) ≤ 63
  name-size h =
      let body = rstrip (cut_at 41 sanitized) in
      ground (
        arith,
        prefix-size,
        dash-size,
        size-append "oscm-archive-" digest,
        size-append "oscm-archive-" (append body (append "-" digest)),
        size-append body (append "-" digest),
        size-append "-" digest,
        size-rstrip (cut_at 41 sanitized),
        size-cut_at 41 sanitized,
      )

  name-label :
      all_label digest ≡ true
      → all_label sanitized ≡ true
      → all_label (name_of hexdigest lower digest sanitized) ≡ true
  name-label h g =
      let body = rstrip (cut_at 41 sanitized) in
      ground (
        arith,
        prefix-label,
        dash-label,
        all_label-append "oscm-archive-" digest,
        all_label-append "oscm-archive-" (append body (append "-" digest)),
        all_label-append body (append "-" digest),
        all_label-append "-" digest,
        all_label-rstrip (cut_at 41 sanitized),
        all_label-cut_at 41 sanitized,
      )

-- `[a-z0-9]`
abbrev pub is_alnum : Char → Bool
is_alnum c = between 97 122 c || between 48 57 c

unfoldable pub all_alnum : String → Bool
all_alnum String.[] = true
all_alnum (String.◌∷◌ c s) = is_alnum c && all_alnum s

unfoldable pub ends_alnum : String → Bool
ends_alnum String.[] = false
ends_alnum (String.◌∷◌ c s) = let rest = ends_alnum s in if is_empty s then is_alnum c else rest

abbrev pub starts_letter : String → Bool
starts_letter String.[] = false
starts_letter (String.◌∷◌ c s) = between 97 122 c

all_alnum-all_label : (s : String) → all_alnum s ≡ true → all_label s ≡ true
unfolding all_alnum all_label
all_alnum-all_label String.[] h = refl
all_alnum-all_label (String.◌∷◌ c s) h = ground (arith, all_alnum-all_label s)

not_empty : (s : String) → ends_alnum s ≡ true → is_empty s ≡ false
unfolding ends_alnum
not_empty String.[] h = cc
not_empty (String.◌∷◌ c s) h = refl

ends_alnum-append : (s t : String) → ends_alnum t ≡ true → ends_alnum (append s t) ≡ true
unfolding ends_alnum append
ends_alnum-append String.[] t h = h
ends_alnum-append (String.◌∷◌ c s) t h =
    ground (arith, ends_alnum-append s t h, not_empty (append s t) (ends_alnum-append s t h))

ends_alnum-cut_at :
    (n : ℕ) (s : String) → 1 ≤ size s → all_alnum s ≡ true → ends_alnum (cut_at (suc n) s) ≡ true
unfolding ends_alnum all_alnum cut_at size
ends_alnum-cut_at n String.[] h g = absurd (omega arith)
ends_alnum-cut_at zero (String.◌∷◌ c s) h g = ground arith
ends_alnum-cut_at (suc n) (String.◌∷◌ c String.[]) h g = ground arith
ends_alnum-cut_at (suc n) (String.◌∷◌ c (String.◌∷◌ d s)) h g =
    ends_alnum-cut_at n (String.◌∷◌ d s) (omega arith) (ground arith)

module _ (hexdigest lower : String → String) (digest sanitized : String) where
  name-ends :
      ends_alnum digest ≡ true → ends_alnum (name_of hexdigest lower digest sanitized) ≡ true
  name-ends h = split (is_empty sanitized)
    where
      split :
          (b : Bool)
          → ends_alnum (
              if b
              then append "oscm-archive-" digest
              else append "oscm-archive-"
                  (append (rstrip (cut_at 41 sanitized)) (append "-" digest)))
            ≡ true
      split true = ends_alnum-append "oscm-archive-" digest h
      split false =
          ends_alnum-append "oscm-archive-" _
            (ends_alnum-append (rstrip (cut_at 41 sanitized)) _ (ends_alnum-append "-" digest h))

  name-starts : starts_letter (name_of hexdigest lower digest sanitized) ≡ true
  unfolding append
  name-starts = split (is_empty sanitized)
    where
      split :
          (b : Bool)
          → starts_letter (
              if b
              then append "oscm-archive-" digest
              else append "oscm-archive-"
                  (append (rstrip (cut_at 41 sanitized)) (append "-" digest)))
            ≡ true
      split true = refl
      split false = refl

-- A label of RFC 1035: at most 63 lower-case letters, digits and dashes, which starts with a letter and ends with a
-- letter or a digit.
abbrev pub Label : String → Type 0
Label s = (size s ≤ 63) × (all_label s ≡ true) × (starts_letter s ≡ true) × (ends_alnum s ≡ true)

-- With a digest that is not empty and consists of lower-case letters and digits, a Job's name is a label of RFC 1035
-- for every analysis id: it has at most 63 characters, each a lower-case letter, a digit or a dash, it starts with a
-- letter, and it ends with a letter or a digit.
pub archival_job_name-Label :
    (hexdigest lower : String → String) (analysis_id : String)
    → 1 ≤ size (hexdigest analysis_id)
    → all_alnum (hexdigest analysis_id) ≡ true
    → Label (archival_job_name hexdigest lower analysis_id)
unfolding archival_job_name
archival_job_name-Label hexdigest lower analysis_id n h = (
  name-size hexdigest lower _ _ (size-cut_at 8 (hexdigest analysis_id)),
  name-label hexdigest lower _ _
      (all_label-cut_at 8 (hexdigest analysis_id) (all_alnum-all_label _ h))
      (all_label-rstrip _ (all_label-lstrip _ (all_label-dashed false (lower analysis_id)))),
  name-starts hexdigest lower _ _,
  name-ends hexdigest lower _ _ (ends_alnum-cut_at 7 (hexdigest analysis_id) n h),
)
