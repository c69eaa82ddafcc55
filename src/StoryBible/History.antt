-- ===== src/StoryBible/History.antt =====
-- Canonical history over any number of accepted scenes.
use open_hollywood.Artifacts.{
  StoryBibleThread, StoryBible, StoryBibleUpdate, StoryBibleScene, StoryBibleTimelineEvent,
  StoryBibleFact, StoryBibleCharacterState,
}
use open_hollywood.Artifacts.BibleRules.{validate_canonical_state}
use open_hollywood.StoryBible.Upsert.{find-merge, sorted}
use open_hollywood.StoryBible.Reduce.{apply_story_bible_update}
use open_hollywood.StoryBible.Inversion.{successor}
use open_hollywood.StoryBible.Threads.{
  Continues, Continues-refl, Continues-trans, apply-eq-ok, apply-Continues,
}
use open_hollywood.Prelude.{
  string_eq, or_else, find, subst, ◌∙◌, String, ◌≡◌, refl, sym, some, List, [], ◌∷◌, ◌++◌, ok,
}
use mathlib.Core.List.{append_assoc, append-nil}

-- The snapshots that a sequence of accepted updates leads to.
pub data Evolves (start : StoryBible) : StoryBible → Type 0 where
  here : Evolves start start
  next :
      {b c : StoryBible}
      → Evolves start b
      → (u : StoryBibleUpdate) → apply_story_bible_update b u ≡ ok c
      → Evolves start c

-- Nothing recorded is lost or moved: each log of `b` is the log of `a` with new entries behind it.
pub record Extends (a b : StoryBible) : Type 0 where
  pub new_scenes : List StoryBibleScene
  pub new_events : List StoryBibleTimelineEvent
  pub new_facts : List StoryBibleFact
  pub new_prohibitions : List String
  pub scenes : b.accepted_scenes ≡ a.accepted_scenes ++ new_scenes
  pub events : b.timeline ≡ a.timeline ++ new_events
  pub facts : b.established_facts ≡ a.established_facts ++ new_facts
  pub prohibitions : b.prohibited_contradictions ≡ a.prohibited_contradictions ++ new_prohibitions
  pub blueprint : b.source_blueprint_version_id ≡ a.source_blueprint_version_id
  pub characters : b.character_ids ≡ a.character_ids
  pub locations : b.location_ids ≡ a.location_ids

Extends-refl : (a : StoryBible) → Extends a a
Extends-refl a = record {
  new_scenes = [];
  new_events = [];
  new_facts = [];
  new_prohibitions = [];
  scenes = sym (append-nil _);
  events = sym (append-nil _);
  facts = sym (append-nil _);
  prohibitions = sym (append-nil _);
  blueprint = refl;
  characters = refl;
  locations = refl;
}

Extends-trans : {a b c : StoryBible} → Extends a b → Extends b c → Extends a c
Extends-trans p q = record {
  new_scenes = p.new_scenes ++ q.new_scenes;
  new_events = p.new_events ++ q.new_events;
  new_facts = p.new_facts ++ q.new_facts;
  new_prohibitions = p.new_prohibitions ++ q.new_prohibitions;
  scenes = q.scenes ∙ rw (p.scenes, append_assoc);
  events = q.events ∙ rw (p.events, append_assoc);
  facts = q.facts ∙ rw (p.facts, append_assoc);
  prohibitions = q.prohibitions ∙ rw (p.prohibitions, append_assoc);
  blueprint = q.blueprint ∙ p.blueprint;
  characters = q.characters ∙ p.characters;
  locations = q.locations ∙ p.locations;
}

successor-Extends : (a : StoryBible) (u : StoryBibleUpdate) → Extends a (successor a u)
successor-Extends a u = record {
  new_scenes = u.accepted_scene ∷ [];
  new_events = u.timeline_events;
  new_facts = u.established_facts;
  new_prohibitions = sorted u.prohibited_contradictions;
  scenes = refl;
  events = refl;
  facts = refl;
  prohibitions = refl;
  blueprint = refl;
  characters = refl;
  locations = refl;
}

apply-Extends :
    (a : StoryBible) (u : StoryBibleUpdate) (b : StoryBible)
    → apply_story_bible_update a u ≡ ok b
    → Extends a b
apply-Extends a u b h = subst (Extends a) ((apply-eq-ok a u h).0.result) (successor-Extends a u)

Evolves-valid :
    {a b : StoryBible}
    → validate_canonical_state a ≡ ok tt
    → Evolves a b
    → validate_canonical_state b ≡ ok tt
Evolves-valid v here = v
Evolves-valid v (next {b = b} e u h) = (apply-eq-ok b u h).1

-- From a snapshot, any sequence of accepted updates only appends: the scenes, the timeline, the
-- facts and the prohibitions of the start stand unchanged at the front of the later ones, and the
-- source blueprint, the characters and the locations stay the same.
pub Evolves-Extends : {a b : StoryBible} → Evolves a b → Extends a b
Evolves-Extends {a} here = Extends-refl a
Evolves-Extends (next {b = b} {c = c} e u h) =
    Extends-trans (Evolves-Extends e) (apply-Extends b u c h)

-- Over any sequence of accepted updates from a snapshot that passes the class's validator, a story
-- thread keeps its kind, its statement and its introduction; and a resolved thread stays resolved, by
-- the same scene and with the same resolution.
pub Evolves-Continues :
    {a b : StoryBible} (k : String) (t : StoryBibleThread)
    → validate_canonical_state a ≡ ok tt
    → Evolves a b
    → find (λ x. x.id) k a.threads ≡ some t
    → (t' : StoryBibleThread) × (find (λ x. x.id) k b.threads ≡ some t') × Continues t t'
Evolves-Continues k t v here p = (t, p, Continues-refl t)
Evolves-Continues k t v (next {b = b} {c = c} e u h) p =
    let (t1, p1, c1) = Evolves-Continues k t v e p in
    let (t2, p2, c2) = apply-Continues b u c k t1 (Evolves-valid v e) h p1 in
    (t2, p2, Continues-trans c1 c2)

-- An accepted update sets the state of each character that it names, and leaves the state of every
-- other character as it was.
pub apply-character_states :
    (a : StoryBible) (u : StoryBibleUpdate) (b : StoryBible) (k : String)
    → apply_story_bible_update a u ≡ ok b
    → find (λ s. s.character_id) k b.character_states
      ≡ or_else
          (find (λ s. s.character_id) k u.character_states)
          (find (λ s. s.character_id) k a.character_states)
apply-character_states a u b k h =
    let reduced = (apply-eq-ok a u h).0 in
    let id : StoryBibleCharacterState → String = λ (s : StoryBibleCharacterState). s.character_id in
    subst
      (λ c.
        find id k c.character_states
        ≡ or_else (find id k u.character_states) (find id k a.character_states))
      reduced.result (find-merge id k a.character_states u.character_states reduced.character_keys)
