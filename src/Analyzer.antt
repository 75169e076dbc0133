-- ===== src/Analyzer.antt =====
-- internal/processor/analyzer.go: the mock analysis of an ad. The random number that `r.Float64`
-- gives is the argument `random`, and the configured delay is left out.
use Prim.Native.String
use game_ad_service.Common.{
  ℕ, String, String-discrete, Option, none, some, List, [], ◌∷◌, ◌++◌, ◌≡◌, refl, ite,
  if◌then◌else◌,
}
use game_ad_service.Common.Int.{ℤ, pos}
use game_ad_service.Common.Dict.{Dict, lookup, insert, lookup-insert}
use game_ad_service.Float64.{Float64, FloatOps}
use game_ad_service.Ad.{Ad, AdAnalysis}

pub record AnalyzerOptions : Type 0 where
  pub min_score : Float64
  pub max_score : Float64
  pub analysis_delay : ℤ

-- The scores 1 and 10 as `float64`, and no delay.
unfoldable pub default_analyzer_options : AnalyzerOptions
default_analyzer_options = record {
  min_score = record { bits = 0x3ff0000000000000 };
  max_score = record { bits = 0x4024000000000000 };
  analysis_delay = pos 0;
}

-- `fmt.Sprintf` with one `%s` at the end, for a string.
abbrev pub appended : String → String → String
appended prefix s = String.◌++◌ prefix s

-- The strength that the first visual element gives.
unfoldable pub visual_strength : List String → List String
visual_strength [] = []
visual_strength (v ∷ _) = appended "Effective visual elements: " v ∷ []

unfoldable pub strengths_of : Ad → List String
unfolding visual_strength
strengths_of ad =
    let call = appended "Strong call to action with clear incentive: " ad.call_to_action ∷ [] in
    let audience = "Appeals to target audience's desire for progression" ∷ [] in
    ite (String-discrete ad.call_to_action "") [] call
    ++ (elim ad.target_audience [ [] ↦ [] | _ ∷ _ ↦ audience ])
    ++ visual_strength ad.visual_elements

module _ (F : FloatOps) where
  -- The score, cut after one decimal place.
  unfoldable pub score_of : AnalyzerOptions → Float64 → Float64
  score_of options random =
      let width = F.sub options.max_score options.min_score in
      let score = F.add options.min_score (F.mul random width) in
      let ten = F.of_int (pos 10) in F.div (F.of_int (F.to_int (F.mul score ten))) ten

  abbrev pub suggestion : Float64 → ℕ → String → List String
  suggestion score limit text = if F.gt (F.of_int (pos limit)) score then text ∷ [] else []

  unfoldable pub suggestions_of : Float64 → List String
  suggestions_of score =
      suggestion score 9 "Consider adding social proof elements"
      ++ suggestion score 8 "Highlight immediate gameplay satisfaction"
      ++ suggestion score 7 "Optimize creative elements for better engagement"

  unfoldable pub analyze : AnalyzerOptions → Float64 → Ad → AdAnalysis
  unfolding score_of strengths_of suggestions_of
  analyze options random ad =
      let score = score_of options random in
      record {
        effectiveness_score = score;
        strengths = strengths_of ad;
        improvement_suggestions = suggestions_of score;
      }

  -- The loop of `BatchAnalyze` over the ads, each with its random number. `Analyze` gives no error.
  unfoldable pub analyze_each :
      AnalyzerOptions → List (Float64 × Ad) → Dict AdAnalysis → Dict AdAnalysis
  analyze_each options [] results = results
  analyze_each options ((random, ad) ∷ rest) results =
      analyze_each options rest (insert ad.ad_id (analyze options random ad) results)

  unfoldable pub batch_analyze : AnalyzerOptions → List (Float64 × Ad) → Dict AdAnalysis
  unfolding analyze_each
  batch_analyze options ads = analyze_each options ads []

  -- The analysis of the last ad of the batch with an id, or `earlier` if there is none.
  abbrev pub last_analysis :
      AnalyzerOptions → String → List (Float64 × Ad) → Option AdAnalysis → Option AdAnalysis
  last_analysis options id [] earlier = earlier
  last_analysis options id ((random, ad) ∷ rest) earlier =
      last_analysis options id rest
        (ite (String-discrete ad.ad_id id) (some (analyze options random ad)) earlier)

  lookup-analyze_each :
      (options : AnalyzerOptions) (id : String) (ads : List (Float64 × Ad))
      (results : Dict AdAnalysis)
      → lookup id (analyze_each options ads results)
        ≡ last_analysis options id ads (lookup id results)
  unfolding analyze_each
  lookup-analyze_each options id [] results = refl
  lookup-analyze_each options id ((random, ad) ∷ rest) results =
      let a = analyze options random ad in
      rw
        (
          lookup-analyze_each options id rest (insert ad.ad_id a results),
          lookup-insert id ad.ad_id a results,
        )
        refl

  -- `BatchAnalyze` gives under each id the analysis of the last ad of the batch with that id, and
  -- nothing under an id that no ad of the batch has.
  lookup-batch_analyze :
      (options : AnalyzerOptions) (id : String) (ads : List (Float64 × Ad))
      → lookup id (batch_analyze options ads) ≡ last_analysis options id ads none
  unfolding batch_analyze lookup
  lookup-batch_analyze options id ads = lookup-analyze_each options id ads []
