-- ===== src/Serving/Tests.antt =====
-- The model service at concrete inputs, with numbers for its floats.
use zlttbots.Prelude.{
  ℕ, ◌+◌, ◌*◌, ◌/◌, ◌≤◌, ◌≡◌, refl, false, Option, none, some, List, [], ◌∷◌, value_error, ltb, leb,
  if◌then◌else◌, ◌==◌, arith,
}
use zlttbots.Serving.Model.{
  FeatureVector, Predictors, PredictionResult, predict, featurize, fallback_predict,
}
use zlttbots.Serving.Runtime.{StoredResult, stored, failed_reply, get_result}
use zlttbots.Serving.Runtime.Stale.{four_rounds, followed, stale_failure}
use zlttbots.Serving.Runtime.Honesty.{ResultsOk}
use zlttbots.Serving.Runtime.Events.{
  Event, submit, arrive, serve, store_response, store_dead_letter, happen, idle, results_honest,
}
use zlttbots.Serving.Waiting.{Answer, wait_result}
use zlttbots.Serving.Waiting.Laws.{IsFirst, wait_result_lem}

-- rates in percent
abbrev percent : Predictors
percent = record {
  Float = ℕ;
  zero_float = 0;
  one_float = 100;
  ratio = λ a b. a * 100 / b;
  less = ltb;
  weigh = λ ctr cvr. (ctr * 3 + cvr * 7) / 10;
  model_version = "v1";
  ready = false;
  outputs = λ ctr cvr. [];
}

abbrev seen : FeatureVector
seen = record { views = 100; clicks = 50; conversions = 5 }

abbrev scored : PredictionResult percent
scored = record { score = 22; ctr = 50; cvr = 10; model_version = "v1" }

stale_failure_example :
    get_result "j" (four_rounds {pr = percent} 7 (followed "j" seen (value_error "bad") [] none))
    ≡ some (
        stored {pr = percent} "j"
          (failed_reply {pr = percent} (some "j") (value_error "bad")).update
          7)
unfolding predict featurize fallback_predict
stale_failure_example =
    stale_failure {pr = percent} "j" seen scored (value_error "bad") 7 [] none refl refl

abbrev morning : List Event
morning =
    submit "j" seen
    ∷ arrive (value_error "bad")
    ∷ serve
    ∷ store_response
    ∷ serve
    ∷ store_dead_letter
    ∷ []

results_honest_example :
    ResultsOk percent (λ job f. f.clicks ≤ f.views) (happen morning 0 (idle percent none)).results
results_honest_example =
    results_honest percent (λ job f. f.clicks ≤ f.views) morning 0 none
      (omega arith, (tt, (tt, (tt, (tt, (tt, tt))))))

abbrev answered_at : ℕ → Option (StoredResult percent)
answered_at k =
    if k == 2
    then some (record {
      job_id = "j";
      status = "done";
      score = some 22;
      ctr = none;
      cvr = none;
      model_version = none;
      error = none;
      updated_at = 3;
    })
    else none

wait_result_lem_example :
    (a : Answer percent) × (k : ℕ) × (wait_result answered_at (leb 5) 6 ≡ some a)
    × (k ≤ 5)
    × IsFirst answered_at (leb 5) 0 k a
wait_result_lem_example = wait_result_lem answered_at (leb 5) 5 refl
