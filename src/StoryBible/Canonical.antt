-- ===== src/StoryBible/Canonical.antt =====
-- The reducer's own guards imply every uniqueness and numbering rule of the class.
use open_hollywood.Artifacts.{StoryBible, StoryBibleUpdate}
use open_hollywood.Artifacts.BibleRules.{
  validate_canonical_state, counts_from, shape_checks, reference_checks,
}
use open_hollywood.StoryBible.Upsert.{merge, sorted, elem-sorted}
use open_hollywood.StoryBible.MergeKeys.{distinct-merge, distinct-sorted}
use open_hollywood.StoryBible.Reduce.{reduce, constructed, apply_story_bible_update, construct}
use open_hollywood.StoryBible.Inversion.{Reduced, reduce-Reduced}
use open_hollywood.Prelude.{
  ap, length-map, require-append, require→AllPass, AllPass-append, disjoint-elem, require,
  disjoint_of, nat_eq, string_eq, arith, distinct-append, subst, ◌∙◌, ℕ, suc, ◌+◌, String, ◌≡◌,
  refl, sym, true, List, [], ◌∷◌, ◌++◌, map, ok, length, AllPass, is_unique, is_unique-eq-distinct,
  disjoint, Eq,
}
use mathlib.Core.List.{map-append}
use native.Mathlib.Nat.{add-zero}

counts_from-append :
    (k : ℕ) (xs ys : List ℕ)
    → counts_from k xs ≡ true
    → counts_from (k + length xs) ys ≡ true
    → counts_from k (xs ++ ys) ≡ true
counts_from-append k [] ys h p = subst (λ n. counts_from n ys ≡ true) (add-zero k) p
counts_from-append k (x ∷ xs) ys h p = ground (arith, counts_from-append (suc k) xs ys)

module _ {ℓ} {A : Type ℓ} ⦃e : Eq A⦄ {T : Type ℓ} (key : T → A) where
  unique_append :
      (xs ys : List T)
      → is_unique (map key xs) ≡ true
      → is_unique (map key ys) ≡ true
      → disjoint (map key ys) (map key xs) ≡ true
      → is_unique (map key (xs ++ ys)) ≡ true
  unique_append xs ys hx hy hd =
      is_unique-eq-distinct (map key (xs ++ ys))
      ∙ rw map-append (
          distinct-append (map key xs) (map key ys) (sym (is_unique-eq-distinct (map key xs)) ∙ hx)
            (sym (is_unique-eq-distinct (map key ys)) ∙ hy) hd)

module _ {ℓ} {T : Type ℓ} (key : T → String) where
  unique_merge :
      (xs ys : List T)
      → is_unique (map key xs) ≡ true
      → is_unique (map key (merge key xs ys)) ≡ true
  unique_merge xs ys h =
      is_unique-eq-distinct (map key (merge key xs ys))
      ∙ distinct-merge key xs ys (sym (is_unique-eq-distinct (map key xs)) ∙ h)

numbering_append {ℓ} :
    {T : Type ℓ} (key : T → ℕ) (xs ys : List T)
    → counts_from 1 (map key xs) ≡ true
    → counts_from (length xs + 1) (map key ys) ≡ true
    → counts_from 1 (map key (xs ++ ys)) ≡ true
numbering_append key xs ys h p = rw map-append (
    counts_from-append 1 (map key xs) (map key ys) h
      (subst (λ n. counts_from n (map key ys) ≡ true) (omega (arith, length-map xs key)) p))

unique_prohibitions :
    (xs ys : List String)
    → is_unique xs ≡ true
    → is_unique ys ≡ true
    → disjoint ys xs ≡ true
    → is_unique (xs ++ sorted ys) ≡ true
unique_prohibitions xs ys hx hy hd =
    is_unique-eq-distinct (xs ++ sorted ys)
    ∙ distinct-append xs (sorted ys) (sym (is_unique-eq-distinct xs) ∙ hx)
        (distinct-sorted ys ∙ sym (is_unique-eq-distinct ys) ∙ hy)
        (disjoint_of (sorted ys) xs λ x m. disjoint-elem ys xs x hd (sym (elem-sorted x ys) ∙ m))

module _ (current : StoryBible) (update : StoryBibleUpdate) (next : StoryBible) where
  -- The rules on the shape of a snapshot hold of the successor of one that has passed them.
  successor-shape :
      AllPass (shape_checks current) → Reduced current update next → AllPass (shape_checks next)
  successor-shape v r =
      let sv = v.1.1.1.1 in
      subst (λ b. AllPass (shape_checks b)) r.result
        (
          v.0,
          (
            v.1.0,
            (
              v.1.1.0,
              (
                v.1.1.1.0,
                (
                  unique_append (λ s. s.scene_id) current.accepted_scenes
                      (update.accepted_scene ∷ []) sv.0 refl (ground (arith, r.history.1.0)),
                  (
                    unique_append (λ s. s.artifact_version_id) current.accepted_scenes
                        (update.accepted_scene ∷ []) sv.1.0 refl (ground (arith, r.history.1.1.0)),
                    (
                      numbering_append (λ s. s.scene_number) current.accepted_scenes
                          (update.accepted_scene ∷ []) sv.1.1.0 (ground (arith, r.history.0)),
                      (
                        unique_append (λ e. e.id) current.timeline update.timeline_events sv.1.1.1.0
                            r.timeline.0 r.timeline.1.0,
                        (
                          numbering_append (λ e. e.sequence) current.timeline update.timeline_events
                              sv.1.1.1.1.0 r.timeline.1.1.0,
                          (
                            unique_append (λ f. f.id) current.established_facts
                                update.established_facts sv.1.1.1.1.1.0 r.timeline.1.1.1.0
                                r.timeline.1.1.1.1.0,
                            (
                              unique_merge (λ s. s.character_id) current.character_states
                                  update.character_states sv.1.1.1.1.1.1.0,
                              (
                                unique_merge (λ s. s.relationship_id) current.relationship_states
                                    update.relationship_states sv.1.1.1.1.1.1.1.0,
                                (
                                  unique_merge (λ s. s.location_id) current.location_states
                                      update.location_states sv.1.1.1.1.1.1.1.1.0,
                                  (
                                    unique_merge (λ t. t.id) current.threads update.thread_changes
                                        sv.1.1.1.1.1.1.1.1.1.0,
                                    (
                                      unique_prohibitions current.prohibited_contradictions
                                          update.prohibited_contradictions sv.1.1.1.1.1.1.1.1.1.1.0
                                          r.prohibitions.0 r.prohibitions.1.0,
                                      tt,
                                    ),
                                  ),
                                ),
                              ),
                            ),
                          ),
                        ),
                      ),
                    ),
                  ),
                ),
              ),
            ),
          ),
        )

-- From a snapshot that passes the validator, an update that passes the reducer's own guards breaks no
-- rule on repeated keys or on numbering: the application succeeds exactly if every reference of the
-- successor is known, and otherwise raises the validator's error for the first unknown reference.
pub apply-eq-reference_checks :
    (current : StoryBible) (update : StoryBibleUpdate) (next : StoryBible)
    → validate_canonical_state current ≡ ok tt
    → reduce current update ≡ ok next
    → apply_story_bible_update current update ≡ constructed (require (reference_checks next)) next
unfolding apply_story_bible_update construct validate_canonical_state
apply-eq-reference_checks current update next v h =
    let shape =
      (AllPass-append (shape_checks current) (reference_checks current)
        (require→AllPass (shape_checks current ++ reference_checks current) v)).0 in
    let shape' = successor-shape current update next shape (reduce-Reduced current update h) in
    let same = require-append (shape_checks next) (reference_checks next) shape' in
    rw h (ap (λ r. constructed r next) same)
