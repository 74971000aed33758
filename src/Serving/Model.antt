-- ===== src/Serving/Model.antt =====
-- main.py, the prediction of one feature vector. What torch and ONNX compute is a parameter.
use zlttbots.Prelude.{
  ℕ, Bool, String, List, [], ◌∷◌, Outcome, ok, raised, index_error, if◌then◌else◌, ◌==◌,
}

pub record FeatureVector : Type 0 where
  pub views : ℕ
  pub clicks : ℕ
  pub conversions : ℕ

pub record Predictors : Type 1 where
  pub Float : Type 0
  pub zero_float : Float
  pub one_float : Float
  -- the quotient of two integers
  pub ratio : ℕ → ℕ → Float
  pub less : Float → Float → Bool
  -- the product with the weights 0.3 and 0.7, in 32 bits
  pub weigh : Float → Float → Float
  pub model_version : String
  -- whether the ONNX model is loaded, and the first row that it answers
  pub ready : Bool
  pub outputs : Float → Float → List Float

pub record PredictionResult (pr : Predictors) : Type 0 where
  pub score : pr.Float
  pub ctr : pr.Float
  pub cvr : pr.Float
  pub model_version : String

module _ (pr : Predictors) where
  unfoldable pub featurize : FeatureVector → pr.Float × pr.Float
  featurize f = (
    if f.views == 0 then pr.zero_float else pr.ratio f.clicks f.views,
    if f.clicks == 0 then pr.zero_float else pr.ratio f.conversions f.clicks,
  )

  -- `max(0.0, min(score, 1.0))`
  unfoldable pub fallback_predict : pr.Float → pr.Float → pr.Float
  fallback_predict ctr cvr =
      let score = pr.weigh ctr cvr in
      let capped = if pr.less pr.one_float score then pr.one_float else score in
      if pr.less pr.zero_float capped then capped else pr.zero_float

  -- the second of the outputs, or the only one
  abbrev pub score_of : List pr.Float → Outcome pr.Float
  score_of [] = raised (index_error "list index out of range")
  score_of (first ∷ []) = ok first
  score_of (first ∷ second ∷ rest) = ok second

  abbrev pub result_of : pr.Float × pr.Float → Outcome pr.Float → Outcome (PredictionResult pr)
  result_of rates (raised e) = raised e
  result_of rates (ok score) =
      ok (record { score = score; ctr = rates.0; cvr = rates.1; model_version = pr.model_version })

  unfoldable pub predict : FeatureVector → Outcome (PredictionResult pr)
  unfolding featurize fallback_predict
  predict f =
      let rates = featurize f in
      result_of rates (
        if pr.ready
        then score_of (pr.outputs rates.0 rates.1)
        else ok (fallback_predict rates.0 rates.1))
