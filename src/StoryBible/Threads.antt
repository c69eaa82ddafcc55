-- ===== src/StoryBible/Threads.antt =====
-- What one applied update does to a story thread.
use open_hollywood.Artifacts.{StoryBibleThread, StoryBible, StoryBibleUpdate, is_resolved}
use open_hollywood.Artifacts.BibleRules.{
  scene_ids, validate_canonical_state, shape_checks, reference_checks,
}
use open_hollywood.StoryBible.Upsert.{find-merge}
use open_hollywood.StoryBible.Reduce.{
  reduce, construct, apply_story_bible_update, optional_is, known_thread_checks,
  thread_change_checks, all_thread_checks,
}
use open_hollywood.StoryBible.Inversion.{Reduced, reduce-Reduced}
use text.Mathlib.TextEquality.{eq_iff}
use open_hollywood.Prelude.{
  get-collect, collect, Option-cases, subst, or_else, inr, inl, is_unique-eq-distinct, ◌==◌, sym,
  Bool-cases, require→AllPass, get, arith, find, AllPass-append, >>=-eq-ok, Dict, AllPass, ap, ◌∙◌,
  String, ◌≡◌, refl, true, Option, none, some, List, [], ◌∷◌, ◌++◌, map, string_eq, distinct, ok,
}

-- `b` is a later state of thread `a`.
pub record Continues (a b : StoryBibleThread) : Type 0 where
  pub kind : b.kind ≡ a.kind
  pub statement : b.statement ≡ a.statement
  pub introduced : b.introduced_scene_id ≡ a.introduced_scene_id
  pub stays_resolved : is_resolved a.status ≡ true → is_resolved b.status ≡ true
  pub same_scene : is_resolved a.status ≡ true → b.resolved_scene_id ≡ a.resolved_scene_id
  pub same_resolution : is_resolved a.status ≡ true → b.resolution ≡ a.resolution

pub Continues-refl : (a : StoryBibleThread) → Continues a a
Continues-refl a = record {
  kind = refl;
  statement = refl;
  introduced = refl;
  stays_resolved = λ h. h;
  same_scene = λ h. refl;
  same_resolution = λ h. refl;
}

pub Continues-trans : {a b c : StoryBibleThread} → Continues a b → Continues b c → Continues a c
Continues-trans p q = record {
  kind = q.kind ∙ p.kind;
  statement = q.statement ∙ p.statement;
  introduced = q.introduced ∙ p.introduced;
  stays_resolved = λ h. q.stays_resolved (p.stays_resolved h);
  same_scene = λ h. q.same_scene (p.stays_resolved h) ∙ p.same_scene h;
  same_resolution = λ h. q.same_resolution (p.stays_resolved h) ∙ p.same_resolution h;
}

optional_is→eq : (a b : Option String) → optional_is a b ≡ true → a ≡ b
optional_is→eq none none h = refl
optional_is→eq (some a) (some b) h = ap some ((eq_iff a b).0 h)
optional_is→eq none (some b) h = cc
optional_is→eq (some a) none h = cc

known_thread_checks→Continues :
    (a b : StoryBibleThread) → AllPass (known_thread_checks a b) → Continues a b
known_thread_checks→Continues a b h = ground (
  arith,
  eq_iff b.statement a.statement,
  eq_iff b.introduced_scene_id a.introduced_scene_id,
  optional_is→eq b.resolved_scene_id a.resolved_scene_id,
  optional_is→eq b.resolution a.resolution,
)

all_thread_checks-find :
    (accepted : List String) (current : Dict String StoryBibleThread) (k : String)
    (t : StoryBibleThread) (ts : List StoryBibleThread)
    → AllPass (all_thread_checks accepted current ts)
    → find (λ t. t.id) k ts ≡ some t
    → AllPass (thread_change_checks accepted (get k current) t)
all_thread_checks-find accepted current k t [] h p = cc
all_thread_checks-find accepted current k t (x ∷ xs) h p =
    let (here, later) = AllPass-append (thread_change_checks accepted (get x.id current) x) _ h in
    elim (Bool-cases (x.id == k)) [
      | inl e ↦
          let same : x ≡ t = ground arith in
          subst (λ y. AllPass (thread_change_checks accepted (get k current) y)) same
            (subst (λ j. AllPass (thread_change_checks accepted (get j current) x))
              ((eq_iff x.id k).0 e) here)
      | inr e ↦ all_thread_checks-find accepted current k t xs later (ground arith)
    ]

construct-eq-ok :
    (b : StoryBible) {next : StoryBible}
    → construct b ≡ ok next
    → (b ≡ next) × (validate_canonical_state next ≡ ok tt)
unfolding construct
construct-eq-ok b {next} h =
    let same : b ≡ next = ground arith in
    (same, subst (λ c. validate_canonical_state c ≡ ok tt) same (ground arith))

pub apply-eq-ok :
    (current : StoryBible) (update : StoryBibleUpdate) {next : StoryBible}
    → apply_story_bible_update current update ≡ ok next
    → Reduced current update next × (validate_canonical_state next ≡ ok tt)
unfolding apply_story_bible_update
apply-eq-ok current update h =
    let (b, r, c) = >>=-eq-ok (reduce current update) construct h in
    let (same, valid) = construct-eq-ok b c in
    (subst (Reduced current update) same (reduce-Reduced current update r), valid)

-- A canonical state has one thread for each identifier.
pub threads_distinct :
    (b : StoryBible)
    → validate_canonical_state b ≡ ok tt
    → distinct (map (λ t. t.id) b.threads) ≡ true
unfolding validate_canonical_state
threads_distinct b h =
    let shape =
      (AllPass-append (shape_checks b) (reference_checks b)
        (require→AllPass (shape_checks b ++ reference_checks b) h)).0 in
    sym (is_unique-eq-distinct (map (λ t. t.id) b.threads)) ∙ shape.1.1.1.1.1.1.1.1.1.1.1.1.1.0

-- A thread of the current state is in the next one, and continues.
pub apply-Continues :
    (current : StoryBible) (update : StoryBibleUpdate) (next : StoryBible) (k : String)
    (t : StoryBibleThread)
    → validate_canonical_state current ≡ ok tt
    → apply_story_bible_update current update ≡ ok next
    → find (λ t. t.id) k current.threads ≡ some t
    → (t' : StoryBibleThread) × (find (λ t. t.id) k next.threads ≡ some t') × Continues t t'
apply-Continues current update next k t v h p =
    let (reduced, _) = apply-eq-ok current update h in
    let id : StoryBibleThread → String = λ (t : StoryBibleThread). t.id in
    let merged : find id k next.threads ≡ or_else (find id k update.thread_changes) (some t) =
      subst (λ b. find id k b.threads ≡ or_else (find id k update.thread_changes) (some t))
        reduced.result
        (find-merge id k current.threads update.thread_changes reduced.thread_keys
          ∙ ap (or_else (find id k update.thread_changes)) p) in
    elim (Option-cases (find id k update.thread_changes)) [
      | inl e ↦ (t, rw e at merged, Continues-refl t)
      | inr (t', e) ↦
          let known : get k (collect id [] current.threads) ≡ some t =
            get-collect id k [] current.threads (threads_distinct current v) ∙ rw p in
          let checks =
            all_thread_checks-find (update.accepted_scene.scene_id ∷ scene_ids current)
              (collect id [] current.threads) k t' update.thread_changes reduced.threads e in
          (t', rw e at merged, known_thread_checks→Continues t t' (rw known at checks))
    ]
