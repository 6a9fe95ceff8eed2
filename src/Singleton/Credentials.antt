-- ===== src/Singleton/Credentials.antt =====
-- The two readers of `spec.redisCredentials`: the guard's and the parse of the spec.
use openstudio_server_operat.Base.{
  String, Bool, true, false, Option, none, some, ◌≡◌, refl, ap, ◌∙◌, arith, ◌&&◌, not, ◌==◌,
  is_none,
}
use openstudio_server_operat.Config.{OperatorConfig, RedisSecretRef}
use openstudio_server_operat.Config.Spec.{
  RawSpec, RawRef, Mapped, absent, wrong, dict, Parsed, parsed, value_error, attribute_error,
  demand, Field, text, no_text, full_ref, config_of, get_or, from_spec,
}
use openstudio_server_operat.Singleton.{or_empty}
use openstudio_server_operat.Singleton.RedisEvents.{
  ref_of, redis_secret_ref_of, has_redis_secret_ref, has_no_url,
}

-- A configuration without a source of the Redis URL.
abbrev pub no_source : OperatorConfig → Bool
no_source config = config.redis_url == "" && is_none config.redis_credentials.secret_ref

-- What the guard's reading says of the result of the parse.
abbrev pub Agrees : RawSpec → Parsed OperatorConfig → Type 0
Agrees spec (parsed config) =
    (redis_secret_ref_of spec ≡ config.redis_credentials.secret_ref)
    × (has_no_url spec ≡ no_source config)
Agrees spec value_error = redis_secret_ref_of spec ≡ none
Agrees spec attribute_error = redis_secret_ref_of spec ≡ none

url_read : (url : Option String) → or_empty url ≡ get_or url ""
url_read none = refl
url_read (some u) = refl

ref_of-full_ref : (name key : Field) → ref_of name key ≡ full_ref name key
ref_of-full_ref no_text key = refl
ref_of-full_ref (text name) no_text = refl
ref_of-full_ref (text name) (text key) = ground arith

abbrev with_credentials : RawSpec → Mapped (Mapped RawRef) → RawSpec
with_credentials spec c = record spec { redis_credentials = c }

-- A reading that the parse shares.
same_source :
    (spec : RawSpec) (secret_ref : Option RedisSecretRef)
    → redis_secret_ref_of spec ≡ secret_ref
    → has_no_url spec ≡ no_source (config_of spec secret_ref)
unfolding has_redis_secret_ref
same_source spec secret_ref e =
    ap (λ r. or_empty spec.redis_url == "" && not (not (is_none r))) e
    ∙ ap (λ u. u == "" && not (not (is_none secret_ref))) (url_read spec.redis_url)
    ∙ ap (λ b. get_or spec.redis_url "" == "" && b) (twice (is_none secret_ref))
  where
    twice : (b : Bool) → not (not b) ≡ b
    twice true = refl
    twice false = refl

credentials-Agrees :
    (spec : RawSpec) (c : Mapped (Mapped RawRef))
    → Agrees (with_credentials spec c) (from_spec (with_credentials spec c))
unfolding from_spec redis_secret_ref_of
credentials-Agrees spec absent = (refl, same_source (with_credentials spec absent) none refl)
credentials-Agrees spec wrong = refl
credentials-Agrees spec (dict absent) =
    (refl, same_source (with_credentials spec (dict absent)) none refl)
credentials-Agrees spec (dict wrong) = refl
credentials-Agrees spec (dict (dict raw)) =
    split (full_ref raw.name raw.key) (ref_of-full_ref raw.name raw.key)
  where
    given : RawSpec
    given = with_credentials spec (dict (dict raw))

    split :
        (o : Option RedisSecretRef)
        → redis_secret_ref_of given ≡ o
        → Agrees given (elim (demand o) as (λ _. Parsed OperatorConfig) [
          | parsed secret_ref ↦ parsed (config_of given secret_ref)
          | value_error ↦ value_error
          | attribute_error ↦ attribute_error
        ])
    split none e = e
    split (some ref) e = (e, same_source given (some ref) e)

-- The guard and the parse agree on every spec, whatever the shape of its credentials. Where `from_spec` gives a
-- configuration, the guard reads its secretRef, and finds no URL exactly where the configuration has neither a URL nor
-- a secretRef. Where `from_spec` raises, the guard reads no secretRef.
pub from_spec-Agrees : (spec : RawSpec) → Agrees spec (from_spec spec)
from_spec-Agrees spec = credentials-Agrees spec spec.redis_credentials
