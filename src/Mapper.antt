-- ===== src/Mapper.antt =====
-- internal/interfaces/mapper/mapper.go and the records of internal/interfaces/dtos/ads.go: what a
-- client sends and sees of an advertisement.
use game_ad_service.Common.{String, Option, none, some, List, ◌≡◌, refl}
use game_ad_service.Common.Int.{ℤ}
use game_ad_service.Float64.{Float64}
use game_ad_service.Ad.{Ad, AdAnalysis, AdSubmission, AdStatus}

pub record AdSubmissionDto : Type 0 where
  pub title : String
  pub description : String
  pub genre : String
  pub target_audience : List String
  pub visual_elements : List String
  pub call_to_action : String
  pub duration : ℤ
  pub priority : ℤ

pub record AdAnalysisDto : Type 0 where
  pub effectiveness_score : Float64
  pub strengths : List String
  pub improvement_suggestions : List String

pub record AdDto : Type 0 where
  pub ad_id : String
  pub title : String
  pub description : String
  pub genre : String
  pub target_audience : List String
  pub visual_elements : List String
  pub call_to_action : String
  pub duration : ℤ
  pub priority : ℤ
  pub status : AdStatus
  pub created_at : ℤ
  pub completed_at : Option ℤ
  pub analysis : Option AdAnalysisDto
  pub error : String

-- The rest of the transfer objects, which no code fills.
pub record AdListItemDto : Type 0 where
  pub ad_id : String
  pub title : String
  pub genre : String
  pub status : AdStatus
  pub created_at : ℤ
  pub completed_at : Option ℤ
  pub effectiveness_score : Option Float64

pub record AdStatusUpdateDto : Type 0 where
  pub status : AdStatus

pub record AdErrorDto : Type 0 where
  pub message : String

pub record AdStatsDto : Type 0 where
  pub total_ads : ℤ
  pub status_counts : List (AdStatus × ℤ)
  pub avg_processing_time : Float64
  pub avg_effectiveness_score : Float64

unfoldable pub map_ad_submission_to_ad_submission : AdSubmissionDto → AdSubmission
map_ad_submission_to_ad_submission s = record {
  title = s.title;
  description = s.description;
  genre = s.genre;
  target_audience = s.target_audience;
  visual_elements = s.visual_elements;
  call_to_action = s.call_to_action;
  duration = s.duration;
  priority = s.priority;
}

unfoldable pub map_ad_analysis_to_ad_analysis_dto : Option AdAnalysis → Option AdAnalysisDto
map_ad_analysis_to_ad_analysis_dto none = none
map_ad_analysis_to_ad_analysis_dto (some a) = some (record {
  effectiveness_score = a.effectiveness_score;
  strengths = a.strengths;
  improvement_suggestions = a.improvement_suggestions;
})

unfoldable pub map_ad_to_ad_dto : Ad → AdDto
unfolding map_ad_analysis_to_ad_analysis_dto
map_ad_to_ad_dto ad = record {
  ad_id = ad.ad_id;
  title = ad.title;
  description = ad.description;
  genre = ad.genre;
  target_audience = ad.target_audience;
  visual_elements = ad.visual_elements;
  call_to_action = ad.call_to_action;
  duration = ad.duration;
  priority = ad.priority;
  status = ad.status;
  created_at = ad.created_at;
  completed_at = ad.completed_at;
  analysis = map_ad_analysis_to_ad_analysis_dto ad.analysis;
  error = ad.error;
}

unfoldable pub map_ad_submission_to_ad_submission_dto : AdSubmission → AdSubmissionDto
map_ad_submission_to_ad_submission_dto s = record {
  title = s.title;
  description = s.description;
  genre = s.genre;
  target_audience = s.target_audience;
  visual_elements = s.visual_elements;
  call_to_action = s.call_to_action;
  duration = s.duration;
  priority = s.priority;
}

-- The two mappings of a submission are inverse to one another: no field is lost or mixed up.
map_ad_submission_inverse :
    (s : AdSubmission) (d : AdSubmissionDto)
    → (map_ad_submission_to_ad_submission (map_ad_submission_to_ad_submission_dto s) ≡ s)
      × (map_ad_submission_to_ad_submission_dto (map_ad_submission_to_ad_submission d) ≡ d)
unfolding map_ad_submission_to_ad_submission map_ad_submission_to_ad_submission_dto
map_ad_submission_inverse s d = (refl, refl)
