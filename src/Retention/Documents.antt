-- ===== src/Retention/Documents.antt =====
-- What the retention pipeline reads off documents and Jobs, and the result of its tick: the pure
-- helpers of src/openstudio_operator/retention.py.
use openstudio_server_operat.Base.{
  ◌+◌, String, Bool, false, Option, none, some, List, [], ◌∷◌, ◌++◌, ◌&&◌, not, leb, member, keep,
  map, if◌then◌else◌, ◌==◌,
}
use openstudio_server_operat.Base.Dict.{Dict, insert}
use openstudio_server_operat.Clock.{Time}
use openstudio_server_operat.Config.{OperatorConfig}
use openstudio_server_operat.World.{Doc, Condition}
use openstudio_server_operat.Watchdog.Hygiene.{doc_id}
use openstudio_server_operat.Recycler.{has_status}

-- `_completion_time`
unfoldable pub completion_time : Doc → Option Time
completion_time doc = elim doc.updated_at [ some t ↦ some t | none ↦ doc.created_at ]

-- `now - completed_at >= retention`
abbrev pub ripe : Time → Time → Option Time → Bool
ripe now retention none = false
ripe now retention (some completed_at) = leb (completed_at + retention) now

unfoldable pub eligible : Time → Time → Doc → Bool
unfolding completion_time
eligible now retention doc = has_status "completed" doc && ripe now retention (completion_time doc)

pub data Terminal : Type 0 where
  complete failed : Terminal

abbrev pub terminal_of : String → Option Terminal
terminal_of kind =
    if kind == "Complete" then some complete else if kind == "Failed" then some failed else none

-- The first of the two terminal conditions that holds.
unfoldable pub job_terminal_condition : List Condition → Option Terminal
job_terminal_condition [] = none
job_terminal_condition (c ∷ cs) =
    if c.status == "True"
    then elim (terminal_of c.kind) [ some t ↦ some t | none ↦ job_terminal_condition cs ]
    else job_terminal_condition cs

-- What became of one analysis.
pub record Progress : Type 0 where
  pub spawned : Bool
  pub verified : Bool
  pub deleted : Bool

abbrev pub no_progress : Progress
no_progress = record { spawned = false; verified = false; deleted = false }

pub record RetentionTickResult : Type 0 where
  pub spawned : List String
  pub verified : List String
  pub deleted : List String

abbrev pub no_retention : RetentionTickResult
no_retention = record { spawned = []; verified = []; deleted = [] }

abbrev add_if : Bool → String → List String → List String
add_if b id ids = if b then ids ++ (id ∷ []) else ids

abbrev pub note_progress : String → Progress → RetentionTickResult → RetentionTickResult
note_progress id p r = record {
  spawned = add_if p.spawned id r.spawned;
  verified = add_if p.verified id r.verified;
  deleted = add_if p.deleted id r.deleted;
}

-- `str(doc.get("analysis_id") or "") == analysis_id`
abbrev pub belongs_to : String → Doc → Bool
belongs_to analysis_id doc = (elim doc.analysis_id [ none ↦ "" | some a ↦ a ]) == analysis_id

-- `ids_for`, over the fetched payload.
unfoldable pub ids_for : String → List Doc → List String
ids_for analysis_id payload =
    map doc_id (keep (λ d. not (doc_id d == "") && belongs_to analysis_id d) payload)

-- The analyses with an id that are completed, by id; of two documents with one id the later counts.
unfoldable pub completed_by_id : List Doc → Dict Doc → Dict Doc
completed_by_id [] acc = acc
completed_by_id (doc ∷ docs) acc = completed_by_id docs (
    if not (doc_id doc == "") && has_status "completed" doc
    then insert (doc_id doc) doc acc
    else acc)

-- A text of the policy that is there and not empty.
abbrev pub given : Option String → Bool
given none = false
given (some s) = not (s == "")

abbrev pub text_of : Option String → String
text_of none = ""
text_of (some s) = s

-- `policy.backend and policy.bucket and policy.secret_ref`
abbrev pub has_destination : OperatorConfig → Bool
has_destination config =
    given config.storage_policy.backend
    && (given config.storage_policy.bucket && given config.storage_policy.secret_ref)

-- `backend in _RCLONE_BACKEND_TYPES`
abbrev pub known_backend : OperatorConfig → Bool
known_backend config = member (text_of config.storage_policy.backend) ("s3" ∷ "gcs" ∷ "azure" ∷ [])
