-- ===== src/Maturity/GoToMarket.antt =====
-- enterprise_maturity/go_to_market.py: daily plans, posts and the outline of a pitch deck, with the
-- checks on each. The sign and the text of the one float are parameters.
pub mod Laws
use text.Mathlib.Text.{starts_with}
use zlttbots.Prelude.{
  ℕ, zero, suc, Bool, true, false, not, ◌||◌, String, List, [], ◌∷◌, Outcome, ok, raised,
  value_error, raise_if, ◌>>◌, ◌>>=◌, concat, is_blank, if◌then◌else◌, Option, none, some,
  get_elem?, index_error, ◌%◌,
}
use zlttbots.Prelude.Int.{ℤ, pos, negsuc, ltb_ℤ, leb_ℤ, pos_part, show_ℤ}

pub record DailyKpi : Type 0 where
  pub users_target_min : ℤ
  pub users_target_max : ℤ
  pub deploys_target_min : ℤ
  pub shares_trend_required : Bool

unfoldable pub validate_kpi : DailyKpi → Outcome (Unit {0})
validate_kpi k =
    raise_if (leb_ℤ k.users_target_min (pos 0) || leb_ℤ k.users_target_max (pos 0))
      (value_error "User targets must be positive")
    >> raise_if (ltb_ℤ k.users_target_max k.users_target_min)
        (value_error "Minimum user target must be <= maximum target")
    >> raise_if (leb_ℤ k.deploys_target_min (pos 0)) (value_error "Deploy target must be positive")

pub record ExecutionBlock : Type 0 where
  pub name : String
  pub tasks : List String

abbrev pub is_empty {ℓ} : {A : Type ℓ} → List A → Bool
is_empty [] = true
is_empty (x ∷ xs) = false

unfoldable pub validate_block : ExecutionBlock → Outcome (Unit {0})
validate_block b =
    raise_if (is_blank b.name) (value_error "Execution block name is required")
    >> raise_if (is_empty b.tasks)
        (value_error (concat ("Execution block '" ∷ b.name ∷ "' must include tasks" ∷ [])))

pub record DailyExecutionPlan : Type 0 where
  pub day : ℤ
  pub objective : String
  pub blocks : List ExecutionBlock
  pub kpi : DailyKpi

unfoldable pub validate_blocks : List ExecutionBlock → Outcome (Unit {0})
unfolding validate_block
validate_blocks [] = ok tt
validate_blocks (b ∷ bs) = validate_block b >> validate_blocks bs

unfoldable pub validate_plan : DailyExecutionPlan → Outcome (Unit {0})
unfolding validate_blocks validate_kpi
validate_plan p =
    raise_if (ltb_ℤ p.day (pos 1)) (value_error "Day must be >= 1")
    >> raise_if (is_blank p.objective) (value_error "Objective is required")
    >> raise_if (is_empty p.blocks) (value_error "At least one execution block is required")
    >> validate_blocks p.blocks
    >> validate_kpi p.kpi

pub record ContentInput : Type 0 where
  pub product_link : String
  pub social_proof_count : ℤ

unfoldable pub validate_content : ContentInput → Outcome (Unit {0})
validate_content c =
    raise_if (not (starts_with c.product_link "http"))
      (value_error "Product link must be an absolute URL")
    >> raise_if (ltb_ℤ c.social_proof_count (pos 0)) (value_error "Social proof count must be >= 0")

abbrev pub hooks : List String
hooks = "This feels illegal." ∷ "AI just replaced this workflow." ∷ "DevOps just changed." ∷ []

-- an index in range, which `%` makes of any slot
unfoldable pub select_hook : ℤ → Outcome String
select_hook slot =
    raise_if (ltb_ℤ slot (pos 0)) (value_error "slot must be >= 0")
    >> elim (get_elem? hooks (pos_part slot % 3)) [
      | none ↦ raised (index_error "tuple index out of range")
      | some hook ↦ ok hook
    ]

abbrev pub execution_blocks : List ExecutionBlock
execution_blocks =
    record {
      name = "Morning";
      tasks =
          "Test signup-to-deploy flow" ∷ "Fix at least one product bug"
          ∷ "Improve one UX friction point" ∷ "Review users, deploys, and failures" ∷ [];
    }
    ∷ record {
      name = "Midday";
      tasks =
          "Publish 3 posts (Twitter, Reddit, TikTok)"
          ∷ "Send 20 direct outreach messages to developers" ∷ [];
    }
    ∷ record {
      name = "Evening";
      tasks =
          "Improve AI-fix visibility in product flow" ∷ "Reply to all inbound user messages"
          ∷ "Collect feedback from at least 3 users" ∷ [];
    }
    ∷ []

abbrev pub objective_of : ℤ → String
objective_of day =
    if leb_ℤ day (pos 3)
    then "Launch burst: reach first 50-100 users"
    else if leb_ℤ day (pos 7)
    then "Traction loop: scale to 200-300 users"
    else "Scale phase: work toward 1,000 users"

abbrev pub plan_of : ℤ → DailyExecutionPlan
plan_of day = record {
  day = day;
  objective = objective_of day;
  blocks = execution_blocks;
  kpi = record {
    users_target_min = pos 50;
    users_target_max = pos 100;
    deploys_target_min = pos 100;
    shares_trend_required = true;
  };
}

unfoldable pub generate_daily_plan : ℤ → Outcome DailyExecutionPlan
unfolding validate_plan
generate_daily_plan day =
    raise_if (ltb_ℤ day (pos 1)) (value_error "day must be >= 1")
    >> validate_plan (plan_of day)
    >> ok (plan_of day)

abbrev pub social_proof_line : ℤ → String
social_proof_line count =
    if ltb_ℤ (pos 0) count
    then concat (show_ℤ count ∷ "+ developers already testing this." ∷ [])
    else "Looking for early testers."

unfoldable pub generate_post : ContentInput → ℤ → Outcome String
unfolding validate_content select_hook
generate_post content slot =
    validate_content content
    >> (select_hook slot >>= λ hook. ok (
        concat (
          hook
          ∷ "\n\n"
          ∷ "❌ Build failed\n"
          ∷ "🤖 AI analyzed logs and fixed the issue\n"
          ∷ "✅ Deploy succeeded\n\n"
          ∷ social_proof_line content.social_proof_count
          ∷ "\n"
          ∷ "Try it: "
          ∷ content.product_link
          ∷ [])))

-- what the code asks of the one float: whether it is below zero, and its text with one decimal
pub record Growth : Type 1 where
  pub Float : Type 0
  pub is_negative : Float → Bool
  pub one_decimal : Float → String

pub record DeckMetrics (gr : Growth) : Type 0 where
  pub users : ℤ
  pub deploys : ℤ
  pub daily_growth_percent : gr.Float

module _ {gr : Growth} where
  unfoldable pub validate_metrics : DeckMetrics gr → Outcome (Unit {0})
  validate_metrics m =
      raise_if (ltb_ℤ m.users (pos 0) || ltb_ℤ m.deploys (pos 0))
        (value_error "Users and deploys must be >= 0")
      >> raise_if (gr.is_negative m.daily_growth_percent)
          (value_error "Daily growth percent must be >= 0")

  abbrev pub traction : DeckMetrics gr → String
  traction m = concat (
      "Traction: Users="
      ∷ show_ℤ m.users
      ∷ ", Deploys="
      ∷ show_ℤ m.deploys
      ∷ ", Daily growth="
      ∷ gr.one_decimal m.daily_growth_percent
      ∷ "%."
      ∷ [])

  unfoldable pub generate_pitch_deck_outline : DeckMetrics gr → Outcome (List String)
  unfolding validate_metrics
  generate_pitch_deck_outline m =
      validate_metrics m
      >> ok (
          "Problem: Deployments are complex and failure-prone."
          ∷ "Solution: One-click deployment with AI-assisted auto-fix."
          ∷ "Demo: Build failure -> AI diagnosis -> successful deployment."
          ∷ "Market: DevOps and cloud tooling is a large and expanding segment."
          ∷ "Product: CI/CD, AI auto-fix, live logs, Git-based deploys."
          ∷ traction m
          ∷ "Business model: SaaS subscriptions, team plans, enterprise contracts."
          ∷ "Competition: Vercel/Render and cloud vendors; differentiated by self-healing AI workflows."
          ∷ "Vision: Fully autonomous DevOps operations powered by AI."
          ∷ "Ask: Raise capital to scale product quality and distribution."
          ∷ [])

  -- with the day in its ISO form
  unfoldable pub generate_date_stamped_status : String → DeckMetrics gr → Outcome String
  unfolding validate_metrics
  generate_date_stamped_status day m =
      validate_metrics m
      >> ok (
          concat (
            "Status as of "
            ∷ day
            ∷ ": users="
            ∷ show_ℤ m.users
            ∷ ", deploys="
            ∷ show_ℤ m.deploys
            ∷ ", daily_growth="
            ∷ gr.one_decimal m.daily_growth_percent
            ∷ "%"
            ∷ []))
