-- ===== src/Kube.antt =====
-- Kubernetes reads of src/openstudio_operator/_k8s.py: the label selector of a Deployment.
use openstudio_server_operat.Base.{
  String, Option, none, some, List, [], ◌∷◌, ◌++◌, map, if◌then◌else◌, ◌==◌,
}
use openstudio_server_operat.Base.Texts.{append, join}
use openstudio_server_operat.World.{Call, Expression, Selector, Env, M, ◌>>=◌, pure, ask}

-- `f"{key}={value}"`
abbrev pub label_term : String × String → String
label_term (key, value) = append key (append "=" value)

-- What an expression adds: nothing without a key or an operator, its term, or no way to say it.
pub data Term : Type 0 where
  skipped unsupported : Term
  term : String → Term

abbrev pub term_of : Expression → Term
term_of e =
    if e.key == ""
    then skipped
    else if e.operator == ""
    then skipped
    else if e.operator == "In"
    then term (append e.key (append " in (" (append (join "," e.values) ")")))
    else if e.operator == "NotIn"
    then term (append e.key (append " notin (" (append (join "," e.values) ")")))
    else if e.operator == "Exists"
    then term e.key
    else if e.operator == "DoesNotExist"
    then term (append "!" e.key)
    else unsupported

-- The terms of the expressions from one on, after those so far; an unsupported operator falls back
-- to the labels alone.
unfoldable pub add_terms : List String → List String → List Expression → List String
add_terms labels terms [] = terms
add_terms labels terms (e ∷ es) = elim (term_of e) [
  | skipped ↦ add_terms labels terms es
  | unsupported ↦ labels
  | term t ↦ add_terms labels (terms ++ (t ∷ [])) es
]

unfoldable pub selector_terms : Selector → List String
selector_terms s = let labels = map label_term s.labels in add_terms labels labels s.expressions

abbrev selector_text : List String → Option String
selector_text [] = none
selector_text (t ∷ ts) = some (join "," (t ∷ ts))

unfoldable pub label_selector : Selector → Option String
label_selector s = selector_text (selector_terms s)

unfoldable pub deployment_label_selector : Env → String → M (Option String)
deployment_label_selector env deployment = do
  s ← ask env (Call.read_deployment deployment) (λ t. env.selector t deployment)
  pure (label_selector s)
