-- ===== src/River/Registry/Versions.antt =====
-- river/registry.go: which definition the registry gives for a name and for a version.
use skene.Prelude.{
  String, ◌≡◌, ◌≢◌, ◌⊎◌, inl, inr, refl, sym, Option, none, some, [], Map, lookup, insert,
  lookup-insert, if◌then◌else◌, ◌==◌, string_key, eq_iff, arith, Bool-cases, Option-cases,
  Option_cases, ap, ◌∙◌, subst, eq_refl,
}
use skene.Workflow.Step.{WorkflowDef}
use skene.River.Registry.{
  VersionedWorkflow, Registry, RegistryError, workflow_not_found, version_not_found, Reply, found,
  failed, new_registry, or_no_versions, add_version, register, get, get_version, set_latest,
  latest_version,
}

-- What was said of a version of a workflow, once the workflow has some version.
abbrev pub once_known : String → String → Reply WorkflowDef → Reply WorkflowDef
once_known name version (found def) = found def
once_known name version (failed e) = failed (version_not_found name version)

-- After `Register`, `GetVersion` gives the definition for its name and version; every other version of
-- that name is as before, but an absent one is now an unknown version and no unknown workflow; and
-- other names are as before.
pub get_version-register :
    (def : WorkflowDef) (r : Registry) (name version : String)
    → get_version name version (register def r) ≡ (
        if def.name == name
        then if def.version == version
          then found def
          else once_known name version (get_version name version r)
        else get_version name version r)
unfolding get_version register lookup
get_version-register def r name version = ground (
  arith,
  lookup-insert def.name name (add_version def (or_no_versions (lookup def.name r.workflows)))
      r.workflows,
  lookup-insert def.version version def (or_no_versions (lookup def.name r.workflows)).versions,
  eq_iff def.name name,
)

-- The versions of a name: the latest is there, and each stands under its own version and the name.
pub record IsKept (name : String) (vw : VersionedWorkflow) : Type 0 where
  pub current : lookup vw.latest vw.versions ≢ none
  pub keyed :
      (v : String) (d : WorkflowDef)
      → lookup v vw.versions ≡ some d
      → (d.name ≡ name) × (d.version ≡ v)

IsTidy : Registry → Type 0
IsTidy r =
    (name : String) (vw : VersionedWorkflow) → lookup name r.workflows ≡ some vw → IsKept name vw

-- A registry that its methods made from a new one.
pub data Made : Registry → Type 0 where
  fresh : Made new_registry
  registered : {r : Registry} (def : WorkflowDef) → Made r → Made (register def r)
  chosen : {r : Registry} (name version : String) → Made r → Made (set_latest name version r).1

add_version-keyed :
    (def : WorkflowDef) (versions : Map String WorkflowDef) (v : String) (d : WorkflowDef)
    → ((w : String) (c : WorkflowDef)
        → lookup w versions ≡ some c
        → (c.name ≡ def.name) × (c.version ≡ w))
    → lookup v (insert def.version def versions) ≡ some d
    → (d.name ≡ def.name) × (d.version ≡ v)
add_version-keyed def versions v d h e = elim (Bool-cases (def.version == v)) [
  | inl same ↦
      let e' : some def ≡ some d = rw (lookup-insert def.version v def versions, same) at e in
      let q : def ≡ d = cc in
      (
        ap (λ (x : WorkflowDef). x.name) (sym q),
        ap (λ (x : WorkflowDef). x.version) (sym q) ∙ (eq_iff def.version v).0 same,
      )
  | inr other ↦ h v d (rw (lookup-insert def.version v def versions, other) at e)
]

not_in_empty : (w : String) (c : WorkflowDef) → lookup w [] ≢ some c
unfolding lookup
not_in_empty w c k = cc

add_version-IsKept :
    (def : WorkflowDef) (o : Option VersionedWorkflow)
    → ((vw : VersionedWorkflow) → o ≡ some vw → IsKept def.name vw)
    → IsKept def.name (add_version def (or_no_versions o))
add_version-IsKept def none h = record {
  current = λ absent.
      ground (arith, lookup-insert def.version def.version def [], eq_iff def.version def.version);
  keyed = λ v d e. add_version-keyed def [] v d (λ w c k. absurd (not_in_empty w c k)) e;
}
add_version-IsKept def (some vw) h = record {
  current = λ absent. ground (
    arith,
    (h vw refl).current,
    lookup-insert def.version vw.latest def vw.versions,
    lookup-insert def.version def.version def vw.versions,
    eq_iff def.version def.version,
  );
  keyed = λ v d e. add_version-keyed def vw.versions v d (h vw refl).keyed e;
}

-- A write under a name keeps the registry tidy, if what it writes is kept under that name.
insert-IsTidy :
    (name : String) (vw : VersionedWorkflow) (r : Registry)
    → IsTidy r
    → IsKept name vw
    → IsTidy (record { workflows = insert name vw r.workflows })
unfolding IsTidy
insert-IsTidy name vw r tidy kept other found_vw e = elim (Bool-cases (name == other)) [
  | inl same ↦
      let e' : some vw ≡ some found_vw = rw (lookup-insert name other vw r.workflows, same) at e in
      let q : vw ≡ found_vw = cc in
      subst (IsKept other) q (subst (λ n. IsKept n vw) ((eq_iff name other).0 same) kept)
  | inr differs ↦ tidy other found_vw (rw (lookup-insert name other vw r.workflows, differs) at e)
]

register-IsTidy : (def : WorkflowDef) (r : Registry) → IsTidy r → IsTidy (register def r)
unfolding register IsTidy
register-IsTidy def r tidy =
    insert-IsTidy def.name _ r tidy
      (add_version-IsKept def (lookup def.name r.workflows) (λ vw e. tidy def.name vw e))

set_latest-IsTidy :
    (name version : String) (r : Registry) → IsTidy r → IsTidy (set_latest name version r).1
unfolding set_latest IsTidy
set_latest-IsTidy name version r tidy =
    Option_cases (λ (o : Option RegistryError × Registry). IsTidy o.1) (lookup name r.workflows) _ _
      (λ _. tidy)
      (λ vw e.
        Option_cases (λ (o : Option RegistryError × Registry). IsTidy o.1)
          (lookup version vw.versions) _ _ (λ _. tidy)
          (λ def k.
            insert-IsTidy name (record vw { latest = version }) r tidy
              (record { current = λ absent. cc; keyed = (tidy name vw e).keyed })))

Made-IsTidy : (r : Registry) → Made r → IsTidy r
Made-IsTidy _ fresh = unfold IsTidy lookup in λ name vw e. cc
Made-IsTidy _ (registered {r = r} def m) = register-IsTidy def r (Made-IsTidy r m)
Made-IsTidy _ (chosen {r = r} name version m) = set_latest-IsTidy name version r (Made-IsTidy r m)

-- In a registry that `Register` and `SetLatest` made, `Get` gives a definition of that name, and
-- `LatestVersion` that definition's version, or both say that the workflow is unknown: `Get` never
-- fails for want of a version.
pub get-Made :
    (r : Registry) (name : String)
    → Made r
    → ((def : WorkflowDef) × (get name r ≡ found def)
        × (latest_version name r ≡ found def.version)
        × (def.name ≡ name))
      ⊎ (get name r ≡ failed (workflow_not_found name))
        × (latest_version name r ≡ failed (workflow_not_found name))
unfolding get latest_version IsTidy
get-Made r name m = go (lookup name r.workflows) refl
  where
    go :
        (o : Option VersionedWorkflow)
        → lookup name r.workflows ≡ o
        → ((def : WorkflowDef) × (get name r ≡ found def)
            × (latest_version name r ≡ found def.version)
            × (def.name ≡ name))
          ⊎ (get name r ≡ failed (workflow_not_found name))
            × (latest_version name r ≡ failed (workflow_not_found name))
    go none absent = inr (ground arith, ground arith)
    go (some vw) there =
        let kept = Made-IsTidy r m name vw there in
        elim (Option-cases (lookup vw.latest vw.versions)) [
          | inl no_latest ↦ absurd (kept.current no_latest)
          | inr (def, e) ↦
              let (named, versioned) = kept.keyed vw.latest def e in
              inl (def, ground arith, ground arith, named)
        ]

-- `SetLatest` fails, with the error of `GetVersion` and leaving the registry as it was, or it succeeds
-- where `GetVersion` finds a definition, which `Get` then gives.
pub set_latest-get :
    (r : Registry) (name version : String)
    → ((e : RegistryError) × (get_version name version r ≡ failed e)
        × (set_latest name version r ≡ (some e, r)))
      ⊎ ((def : WorkflowDef) × (get_version name version r ≡ found def)
          × ((set_latest name version r).0 ≡ none)
          × (get name (set_latest name version r).1 ≡ found def))
unfolding get_version set_latest get
set_latest-get r name version = elim (Option-cases (lookup name r.workflows)) [
  | inl absent ↦ inl (workflow_not_found name, ground arith, ground arith)
  | inr (vw, there) ↦ elim (Option-cases (lookup version vw.versions)) [
    | inl missing ↦ inl (version_not_found name version, ground arith, ground arith)
    | inr (def, e) ↦ inr (
      def,
      ground arith,
      ground arith,
      ground (
        arith,
        lookup-insert name name (record vw { latest = version }) r.workflows,
        eq_refl name,
      ),
    )
  ]
]
