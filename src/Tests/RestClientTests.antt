-- ===== src/Tests/RestClientTests.antt =====
-- The REST client at work.
use openstudio_server_operat.Base.{ℕ, zero, suc, ◌+◌, ◌*◌, ◌≤◌, [], ◌∷◌, ◌≡◌, refl, arith}
use openstudio_server_operat.RestClient.{
  Method, Answer, response, transient, responded, not_repeated, request, attempt_from, judge_answer,
  judge_status,
}
use openstudio_server_operat.RestClient.Attempts.{request-transient}
use openstudio_server_operat.RestClient.Outcome.{Explained, request-Explained}
use openstudio_server_operat.RestClient.Backoff.{two_to, slept_time, request-slept}

-- The server is unavailable twice, then it answers.
unfoldable recovering : ℕ → Answer
recovering zero = response 503
recovering (suc zero) = transient "ConnectionError"
recovering (suc (suc n)) = response 200

-- A POST to the same server is answered once.
post_once :
    request 3 Method.post recovering ≡ record { reply = not_repeated 503; sent = 1; slept = [] }
unfolding request attempt_from judge_answer judge_status recovering
post_once = refl

get_thrice :
    request 3 Method.get recovering ≡ record { reply = responded 200; sent = 3; slept = 1 ∷ 2 ∷ [] }
unfolding request attempt_from judge_answer judge_status recovering
get_thrice = refl

request-Explained_example : Explained Method.get recovering 4 (request 3 Method.get recovering)
request-Explained_example = request-Explained Method.get recovering 3

abbrev unreachable : ℕ → Answer
unreachable n = transient "Timeout"

request-transient_example : (request 3 Method.post unreachable).sent ≡ 4
request-transient_example = request-transient Method.post unreachable 3 (λ i. ("Timeout", refl))

abbrev steady : ℕ → ℕ
steady n = 1200

request-slept_example :
    slept_time steady 1 (request 3 Method.get recovering).slept + 1500 * 1 ≤ 1500 * (1 * two_to 3)
request-slept_example = request-slept steady 1 (λ n. omega arith) 3 Method.get recovering
