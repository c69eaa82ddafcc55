-- ===== src/Artifacts/Kinds.antt =====
-- Artifact kinds and references to immutable artifact versions. A UUID is an opaque number.
use open_hollywood.Prelude.{
  nat_eq, string_eq, zero, true, suc, ℕ, String, ◌≡◌, refl, ◌↔◌, Bool, Eq, ◌==◌, ◌&&◌, arith,
  nat_beq, nat_beq_iff,
}

pub data ArtifactKind : Type 0 where
  creative_brief premise character relationship location world_rule beat scene_plan : ArtifactKind
  critique continuity_finding continuity_report story_blueprint : ArtifactKind
  story_bible story_bible_update dialogue_briefing dialogue_turn : ArtifactKind
  dialogue_evaluation scene_draft : ArtifactKind

-- The place of a kind in its enumeration.
abbrev pub kind_index : ArtifactKind → ℕ
kind_index creative_brief = 0
kind_index premise = 1
kind_index character = 2
kind_index relationship = 3
kind_index location = 4
kind_index world_rule = 5
kind_index beat = 6
kind_index scene_plan = 7
kind_index critique = 8
kind_index continuity_finding = 9
kind_index continuity_report = 10
kind_index story_blueprint = 11
kind_index story_bible = 12
kind_index story_bible_update = 13
kind_index dialogue_briefing = 14
kind_index dialogue_turn = 15
kind_index dialogue_evaluation = 16
kind_index scene_draft = 17

-- `a is b`
abbrev pub kind_is : ArtifactKind → ArtifactKind → Bool
kind_is a b = nat_beq (kind_index a) (kind_index b)

abbrev pub kind_at : ℕ → ArtifactKind
kind_at zero = creative_brief
kind_at (suc zero) = premise
kind_at (suc (suc zero)) = character
kind_at (suc (suc (suc zero))) = relationship
kind_at (suc (suc (suc (suc zero)))) = location
kind_at (suc (suc (suc (suc (suc zero))))) = world_rule
kind_at (suc (suc (suc (suc (suc (suc zero)))))) = beat
kind_at (suc (suc (suc (suc (suc (suc (suc zero))))))) = scene_plan
kind_at (suc (suc (suc (suc (suc (suc (suc (suc zero)))))))) = critique
kind_at (suc (suc (suc (suc (suc (suc (suc (suc (suc zero))))))))) = continuity_finding
kind_at (suc (suc (suc (suc (suc (suc (suc (suc (suc (suc zero)))))))))) = continuity_report
kind_at (suc (suc (suc (suc (suc (suc (suc (suc (suc (suc (suc zero))))))))))) = story_blueprint
kind_at (suc (suc (suc (suc (suc (suc (suc (suc (suc (suc (suc (suc zero)))))))))))) = story_bible
kind_at (suc (suc (suc (suc (suc (suc (suc (suc (suc (suc (suc (suc (suc zero))))))))))))) =
    story_bible_update
kind_at (suc (suc (suc (suc (suc (suc (suc (suc (suc (suc (suc (suc (suc (suc zero)))))))))))))) =
    dialogue_briefing
kind_at
      (suc
        (suc (suc (suc (suc (suc (suc (suc (suc (suc (suc (suc (suc (suc (suc zero))))))))))))))) =
    dialogue_turn
kind_at
      (suc (
        suc (
          suc
            (suc (suc (suc (suc (suc (suc (suc (suc (suc (suc (suc (suc (suc zero)))))))))))))))) =
    dialogue_evaluation
kind_at _ = scene_draft

kind_at-kind_index : (a : ArtifactKind) → kind_at (kind_index a) ≡ a
kind_at-kind_index creative_brief = refl
kind_at-kind_index _ = refl

pub kind_is_iff : (a b : ArtifactKind) → (kind_is a b ≡ true) ↔ (a ≡ b)
kind_is_iff a b =
    ground
      (arith, kind_at-kind_index a, kind_at-kind_index b, nat_beq_iff (kind_index a) (kind_index b))

instance abbrev pub kind_eq : Eq ArtifactKind
kind_eq = record { is_same = kind_is; is_same_iff = kind_is_iff }

-- A pointer to one immutable artifact version.
pub record ArtifactReference : Type 0 where
  pub kind : ArtifactKind
  pub artifact_key : String
  pub version_id : ℕ
  pub schema_version : String

abbrev pub reference_is : ArtifactReference → ArtifactReference → Bool
reference_is a b =
    a.kind == b.kind
    && a.artifact_key == b.artifact_key
    && a.version_id == b.version_id
    && a.schema_version == b.schema_version
