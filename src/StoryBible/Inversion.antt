-- ===== src/StoryBible/Inversion.antt =====
-- What a successful reduction has checked, and what it returned.
use open_hollywood.Prelude.{
  ◌≡◌, true, [], ◌∷◌, ◌++◌, map, string_eq, distinct, ok, AllPass, require-bind,
}
use open_hollywood.Artifacts.{StoryBible, StoryBibleUpdate}
use open_hollywood.StoryBible.Upsert.{merge, sorted, upsert-bind}
use open_hollywood.StoryBible.Reduce.{
  reduce, history_checks, timeline_checks, entity_checks, thread_checks, prohibition_checks,
}

abbrev pub successor : StoryBible → StoryBibleUpdate → StoryBible
successor current update = record current {
  accepted_scenes = current.accepted_scenes ++ update.accepted_scene ∷ [];
  timeline = current.timeline ++ update.timeline_events;
  established_facts = current.established_facts ++ update.established_facts;
  character_states = merge (λ s. s.character_id) current.character_states update.character_states;
  relationship_states =
      merge (λ s. s.relationship_id) current.relationship_states update.relationship_states;
  location_states = merge (λ s. s.location_id) current.location_states update.location_states;
  threads = merge (λ t. t.id) current.threads update.thread_changes;
  prohibited_contradictions =
      current.prohibited_contradictions ++ sorted update.prohibited_contradictions;
}

pub record Reduced (current : StoryBible) (update : StoryBibleUpdate) (next : StoryBible)
    : Type 0 where
  pub history : AllPass (history_checks current update)
  pub timeline : AllPass (timeline_checks current update)
  pub entities : AllPass (entity_checks current update)
  pub threads : AllPass (thread_checks current update)
  pub prohibitions : AllPass (prohibition_checks current update)
  pub character_keys : distinct (map (λ s. s.character_id) update.character_states) ≡ true
  pub relationship_keys : distinct (map (λ s. s.relationship_id) update.relationship_states) ≡ true
  pub location_keys : distinct (map (λ s. s.location_id) update.location_states) ≡ true
  pub thread_keys : distinct (map (λ t. t.id) update.thread_changes) ≡ true
  pub result : successor current update ≡ next

pub reduce-Reduced :
    (current : StoryBible) (update : StoryBibleUpdate) {next : StoryBible}
    → reduce current update ≡ ok next
    → Reduced current update next
unfolding reduce
reduce-Reduced current update h =
    let (a, h1) = require-bind (history_checks current update) _ h in
    let (b, h2) = require-bind (timeline_checks current update) _ h1 in
    let (c, h3) = require-bind (entity_checks current update) _ h2 in
    let (d, h4) = require-bind (thread_checks current update) _ h3 in
    let (e, h5) = require-bind (prohibition_checks current update) _ h4 in
    let (k, h6) =
      upsert-bind (λ s. s.character_id) _ current.character_states update.character_states _ h5 in
    let (l, h7) =
      upsert-bind (λ s. s.relationship_id) _ current.relationship_states update.relationship_states
        _ h6 in
    let (m, h8) =
      upsert-bind (λ s. s.location_id) _ current.location_states update.location_states _ h7 in
    let (n, h9) = upsert-bind (λ t. t.id) _ current.threads update.thread_changes _ h8 in
    record {
      history = a;
      timeline = b;
      entities = c;
      threads = d;
      prohibitions = e;
      character_keys = k;
      relationship_keys = l;
      location_keys = m;
      thread_keys = n;
      result = cc h9;
    }
