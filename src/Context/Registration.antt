-- ===== src/Context/Registration.antt =====
-- engine/open_hollywood_engine/context/contracts.py: what a registry hands out.
use open_hollywood.Context.Contracts.{at_least, require_texts, require_text}
use open_hollywood.Artifacts.{kind_eq, ArtifactKind}
use open_hollywood.Context.Manifests.{
  dependency_kinds, of_option, ArtifactDependencyRule, manifest_for, IsManifest,
  dependency_manifest_registry, add_manifests, agent_dependency_manifest, AgentDependencyManifest,
  Registry,
}
use open_hollywood.Prelude.{
  map, collect, find, elem, distinct, get-put_self, get-collect, none, refl, arith, or_else, true,
  ◌≤◌, Option, get, leb→le, is_unique-eq-distinct, is_unique, get-put, Integer, put, ok-injective,
  ◌≡◌, sym, ◌∙◌, subst, ap, some, List, [], ◌∷◌, ok, >>=-eq-ok, guard-bind, string_eq, nat_eq, leb,
  length, String, is_none,
}

pub agent_dependency_manifest-IsManifest :
    (role version : String) (output : ArtifactKind) (rules : List ArtifactDependencyRule)
    (names : List String) (minimum maximum : Integer) (m : AgentDependencyManifest)
    → agent_dependency_manifest role version output rules names minimum maximum ≡ ok m
    → IsManifest m
unfolding agent_dependency_manifest
agent_dependency_manifest-IsManifest role version output rules names minimum maximum m h =
    let (u1, p1, h1) = >>=-eq-ok (require_text role "specialist_role") _ h in
    let (u2, p2, h2) = >>=-eq-ok (require_text version "manifest_version") _ h1 in
    let (unique, h3) = guard-bind (is_unique (dependency_kinds rules)) _ _ h2 in
    let (names_unique, h4) = guard-bind (is_unique names) _ _ h3 in
    let (u5, p5, h5) = >>=-eq-ok (require_texts names "story-bible section name") _ h4 in
    let (least, p6, h6) = >>=-eq-ok (at_least 0 minimum "minimum_nearby_summaries") _ h5 in
    let (most, p7, h7) = >>=-eq-ok (at_least 0 maximum "maximum_nearby_summaries") _ h6 in
    let (ordered, h8) = guard-bind (leb least most) _ _ h7 in
    subst IsManifest (ok-injective h8) (record {
      distinct_kinds = sym (is_unique-eq-distinct (dependency_kinds rules)) ∙ unique;
      minimum_summaries = leb→le least most ordered;
    })

-- The roles of the manifests, in the order in which they are registered.
abbrev pub registered_roles : List AgentDependencyManifest → List String
registered_roles ms = map (λ m. m.manifest_role) ms

-- What the loop over the manifests has checked and built.
record Added (by_role registry : Registry) (ms : List AgentDependencyManifest) : Type 0 where
  collected : registry ≡ collect (λ m. m.manifest_role) by_role ms
  distinct_roles : distinct (registered_roles ms) ≡ true
  fresh : (role : String) → elem role (registered_roles ms) ≡ true → get role by_role ≡ none

Added-add :
    (by_role registry : Registry) (m : AgentDependencyManifest) (ms : List AgentDependencyManifest)
    → is_none (get m.manifest_role by_role) ≡ true
    → Added (put m.manifest_role m by_role) registry ms
    → Added by_role registry (m ∷ ms)
Added-add by_role registry m ms unknown is = record {
  collected = is.collected;
  distinct_roles =
      ground (
        arith,
        is.distinct_roles,
        is.fresh m.manifest_role,
        get-put_self m.manifest_role m by_role,
      );
  fresh = λ role h. ground (
    arith,
    unknown,
    h,
    is.fresh role,
    get-put m.manifest_role role m by_role,
    string_eq.is_same_iff role m.manifest_role,
    string_eq.is_same_iff m.manifest_role role,
  );
}

add_manifests-Added :
    (by_role : Registry) (ms : List AgentDependencyManifest) (registry : Registry)
    → add_manifests by_role ms ≡ ok registry
    → Added by_role registry ms
unfolding add_manifests
add_manifests-Added by_role [] registry h = record {
  collected = sym (ok-injective h);
  distinct_roles = refl;
  fresh = λ role p. cc p;
}
add_manifests-Added by_role (m ∷ ms) registry h =
    let (unknown, h1) = guard-bind (is_none (get m.manifest_role by_role)) _ _ h in
    Added-add by_role registry m ms unknown
      (add_manifests-Added (put m.manifest_role m by_role) ms registry h1)

collected_some :
    (ms : List AgentDependencyManifest)
    → leb 1 (length (collect (λ m. m.manifest_role) [] ms)) ≡ true
    → 1 ≤ length ms
collected_some [] h = cc h
collected_some (m ∷ ms) h = omega arith

without_default : {A : Type 0} (o : Option A) → or_else o none ≡ o
without_default none = refl
without_default (some a) = refl

-- A registry is built only of at least one manifest and of manifests whose roles all differ, and it then
-- answers for every role with the manifest of that role, whichever place it has, and raises for a role
-- that no manifest has.
pub manifest_for-eq-find :
    (ms : List AgentDependencyManifest) (registry : Registry) (role : String)
    → dependency_manifest_registry ms ≡ ok registry
    → (1 ≤ length ms)
      × (distinct (registered_roles ms) ≡ true)
      × (manifest_for role registry ≡ of_option role (find (λ m. m.manifest_role) role ms))
unfolding dependency_manifest_registry
manifest_for-eq-find ms registry role built =
    let (by_role, added, h1) = >>=-eq-ok (add_manifests [] ms) _ built in
    let (some_role, h2) = guard-bind (leb 1 (length by_role)) _ _ h1 in
    let is = add_manifests-Added [] ms by_role added in
    (
      collected_some ms (subst (λ d. leb 1 (length d) ≡ true) is.collected some_role),
      is.distinct_roles,
      ap (of_option role) (
          ap (get role) (sym (ok-injective h2) ∙ is.collected)
          ∙ get-collect (λ m. m.manifest_role) role [] ms is.distinct_roles
          ∙ without_default (find (λ m. m.manifest_role) role ms)),
    )
