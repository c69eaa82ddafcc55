-- ===== src/Artifacts/Reviews.antt =====
-- Critiques, continuity findings and reports, scene drafts and the dialogue artifacts.
use open_hollywood.Prelude.{ℕ, String, Bool, true, false, Option, some, List, ◌&&◌, ◌||◌, not, any}
use open_hollywood.Artifacts.Kinds.{ArtifactKind}

pub data CritiqueSeverity : Type 0 where
  note minor major blocking : CritiqueSeverity

pub data CritiqueVerdict : Type 0 where
  pass revise reject : CritiqueVerdict

pub data ContinuitySeverity : Type 0 where
  info warning error blocking : ContinuitySeverity

pub data ContinuityCategory : Type 0 where
  constraint fact timeline character character_knowledge : ContinuityCategory
  relationship location world_rule setup_payoff : ContinuityCategory

pub data ContinuityRecheckDisposition : Type 0 where
  still_blocking newly_exposed : ContinuityRecheckDisposition

pub data ContinuityFindingBasis : Type 0 where
  contradiction missing_requirement forbidden_shortcut_violation : ContinuityFindingBasis

pub data EmotionalArcStage : Type 0 where
  opening tension climax resolution : EmotionalArcStage

abbrev pub is_blocking : CritiqueSeverity → Bool
is_blocking blocking = true
is_blocking _ = false

abbrev pub is_pass : CritiqueVerdict → Bool
is_pass pass = true
is_pass _ = false

pub record CritiqueIssue : Type 0 where
  pub category : String
  pub severity : CritiqueSeverity
  pub description : String
  pub evidence : List String
  pub recommendation : String

pub record RubricScore : Type 0 where
  pub dimension : String
  pub score : ℕ
  pub rationale : String

-- Without `overall_score`, a float that nothing here reads.
pub record Critique : Type 0 where
  pub target_artifact_kind : ArtifactKind
  pub target_artifact_key : String
  pub target_artifact_version_id : ℕ
  pub rubric_name : String
  pub rubric_version : String
  pub summary : String
  pub strengths : List String
  pub issues : List CritiqueIssue
  pub scores : List RubricScore
  pub verdict : CritiqueVerdict

-- `Critique.verdict_must_match_blocking_issues`, as the test that the validator makes.
unfoldable pub verdict_must_match_blocking_issues : Critique → Bool
verdict_must_match_blocking_issues c =
    not (is_pass c.verdict && any (λ issue. is_blocking issue.severity) c.issues)

-- The fields that the graph and the report read.
pub record ContinuityFinding : Type 0 where
  pub id : String
  pub severity : ContinuitySeverity
  pub category : ContinuityCategory
  pub basis : Option ContinuityFindingBasis
  pub related_scene_ids : List String
  pub blocks_approval : Bool
  pub recheck_disposition : Option ContinuityRecheckDisposition

pub record ContinuityReport : Type 0 where
  pub story_bible_version_id : ℕ
  pub scene_version_id : ℕ
  pub scene_plan_version_id : ℕ
  pub scene_id : String
  pub scene_number : ℕ
  pub checked_categories : List ContinuityCategory
  pub findings : List ContinuityFinding

abbrev pub is_severe : ContinuitySeverity → Bool
is_severe error = true
is_severe blocking = true
is_severe _ = false

abbrev pub is_contradiction : Option ContinuityFindingBasis → Bool
is_contradiction (some contradiction) = true
is_contradiction _ = false

abbrev pub is_world_rule : ContinuityCategory → Bool
is_world_rule world_rule = true
is_world_rule _ = false

-- `ContinuityReport.has_blocking_findings`
unfoldable pub has_blocking_findings : ContinuityReport → Bool
has_blocking_findings r =
    any (λ finding. finding.blocks_approval || is_severe finding.severity) r.findings

pub record SceneDraft : Type 0 where
  pub scene_id : String
  pub scene_number : ℕ
  pub title : String
  pub revision_number : ℕ
  pub prose : String
  pub is_complete : Bool

pub record DialogueBriefing : Type 0 where
  pub chosen_ending : String
  pub pacing_notes : String

pub record DialogueTurn : Type 0 where
  pub scene_id : String
  pub round_number : ℕ
  pub sequence_number : ℕ
  pub character_id : String
  pub dialogue : String
  pub director_instruction : Option String

pub record DialogueEvaluation : Type 0 where
  pub round_number : ℕ
  pub emotional_arc : EmotionalArcStage
  pub arc_stages_hit : List EmotionalArcStage
  pub unresolved_threads : List String
  pub resolved_threads : List String
  pub closure_detected : Bool
  pub ending_type : Option String
  pub stage_direction : Option String
  pub scene_end : Bool
