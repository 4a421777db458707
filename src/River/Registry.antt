-- ===== src/River/Registry.antt =====
-- river/registry.go: the registry of workflow definitions by name and version. Each method holds the
-- registry's lock, so calls of several goroutines are a sequence of calls. The order in which Go
-- gives the keys of a map is not fixed; here it is that of the model's lists.
pub mod Versions
use skene.Prelude.{
  ℕ, String, Option, none, some, List, [], ◌∷◌, Map, lookup, insert, if◌then◌else◌, ◌==◌,
  string_key, length,
}
use skene.Workflow.Step.{WorkflowDef}

-- `versionedWorkflow`
pub record VersionedWorkflow : Type 0 where
  pub versions : Map String WorkflowDef
  pub latest : String

pub record Registry : Type 0 where
  pub workflows : Map String VersionedWorkflow

-- `ErrWorkflowNotFound`, and `ErrVersionNotFound` with the text of `Get` and with that of the others.
pub data RegistryError : Type 0 where
  workflow_not_found : (name : String) → RegistryError
  latest_not_found version_not_found : (name version : String) → RegistryError

pub data Reply (A : Type 0) : Type 0 where
  found : A → Reply A
  failed : RegistryError → Reply A

abbrev pub new_registry : Registry
new_registry = record { workflows = [] }

abbrev pub or_no_versions : Option VersionedWorkflow → VersionedWorkflow
or_no_versions none = record { versions = []; latest = "" }
or_no_versions (some vw) = vw

-- The assignments of `Register` to the versions of a name.
abbrev pub add_version : WorkflowDef → VersionedWorkflow → VersionedWorkflow
add_version def vw = record {
  versions = insert def.version def vw.versions;
  latest = if vw.latest == "" then def.version else vw.latest;
}

-- `Register`
unfoldable pub register : WorkflowDef → Registry → Registry
register def r = record {
  workflows =
      insert def.name (add_version def (or_no_versions (lookup def.name r.workflows))) r.workflows;
}

abbrev pub or_failed : {A : Type 0} → Option A → RegistryError → Reply A
or_failed none e = failed e
or_failed (some a) e = found a

-- `Get`
unfoldable pub get : String → Registry → Reply WorkflowDef
get name r = elim (lookup name r.workflows) [
  | none ↦ failed (workflow_not_found name)
  | some vw ↦ or_failed (lookup vw.latest vw.versions) (latest_not_found name vw.latest)
]

-- `GetVersion`
unfoldable pub get_version : String → String → Registry → Reply WorkflowDef
get_version name version r = elim (lookup name r.workflows) [
  | none ↦ failed (workflow_not_found name)
  | some vw ↦ or_failed (lookup version vw.versions) (version_not_found name version)
]

-- `SetLatest`: nil, or an error.
unfoldable pub set_latest : String → String → Registry → Option RegistryError × Registry
set_latest name version r = elim (lookup name r.workflows) [
  | none ↦ (some (workflow_not_found name), r)
  | some vw ↦ elim (lookup version vw.versions) [
    | none ↦ (some (version_not_found name version), r)
    | some def ↦
        (none, record { workflows = insert name (record vw { latest = version }) r.workflows })
  ]
]

-- `LatestVersion`
unfoldable pub latest_version : String → Registry → Reply String
latest_version name r = elim (lookup name r.workflows) [
  | none ↦ failed (workflow_not_found name)
  | some vw ↦ found vw.latest
]

abbrev pub keys : {A : Type 0} → Map String A → List String
keys [] = []
keys ((k, a) ∷ m) = k ∷ keys m

-- `Versions`
unfoldable pub versions_of : String → Registry → Reply (List String)
versions_of name r = elim (lookup name r.workflows) [
  | none ↦ failed (workflow_not_found name)
  | some vw ↦ found (keys vw.versions)
]

-- `Names` and `Count`
unfoldable pub names : Registry → List String
names r = keys r.workflows

unfoldable pub count : Registry → ℕ
count r = length r.workflows
