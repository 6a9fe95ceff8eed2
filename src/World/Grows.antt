-- ===== src/World/Grows.antt =====
-- How far a trace has grown: which calls were added to it.
use openstudio_server_operat.Base.{
  ℕ, suc, Bool, true, false, [], ◌∷◌, ◌≡◌, refl, if◌then◌else◌, ◌&&◌,
}
use openstudio_server_operat.World.{Call, Trace, World}

-- Calls that read, write the custom resource's status or post an Event. All others change the
-- server or the cluster.
abbrev pub harmless : Call → Bool
harmless (Call.soft_stop_analysis _) = false
harmless (Call.stop_analysis _) = false
harmless (Call.delete_analysis _) = false
harmless (Call.requeue_datapoint _) = false
harmless (Call.restart_deployment _ _) = false
harmless (Call.delete_pod _ _) = false
harmless (Call.create_job _) = false
harmless (Call.delete_job _) = false
harmless _ = true

-- Only calls that pass the test were added.
pub data Grows (p : Call → Bool) (t : Trace) : Trace → Type 0 where
  same : Grows p t t
  more : (c : Call) (b : Bool) {t' : Trace} → p c ≡ true → Grows p t t' → Grows p t ((c, b) ∷ t')

pub Grows-trans : {p : Call → Bool} {t u v : Trace} → Grows p t u → Grows p u v → Grows p t v
Grows-trans g same = g
Grows-trans g (more c b h g') = more c b h (Grows-trans g g')

pub Grows-weaken :
    {p q : Call → Bool} {t u : Trace}
    → ((c : Call) → p c ≡ true → q c ≡ true)
    → Grows p t u
    → Grows q t u
Grows-weaken f same = same
Grows-weaken f (more c b h g) = more c b (f c h) (Grows-weaken f g)

-- How many calls of a kind have succeeded.
unfoldable pub count_done : (Call → Bool) → Trace → ℕ
count_done p [] = 0
count_done p ((c, b) ∷ t) = if p c && b then suc (count_done p t) else count_done p t

-- Calls of another kind do not count.
pub count_done-Grows :
    {p q : Call → Bool} {t u : Trace}
    → ((c : Call) → p c ≡ true → q c ≡ false)
    → Grows p t u
    → count_done q u ≡ count_done q t
unfolding count_done
count_done-Grows f same = refl
count_done-Grows f (more c b h g) = rw (f c h) (count_done-Grows f g)

-- A world where at most the trace has grown, by harmless calls.
pub record Untouched (w w' : World) : Type 0 where
  pub rest : w' ≡ record w { trace = w'.trace }
  pub grown : Grows harmless w.trace w'.trace

pub Untouched-call :
    (w : World) (c : Call) (b : Bool)
    → harmless c ≡ true
    → Untouched w (record w { trace = (c, b) ∷ w.trace })
Untouched-call w c b h = record { rest = refl; grown = more c b h same }
