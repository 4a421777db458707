-- ===== src/Tests/Registries.antt =====
-- river/registry.go: a registry of two versions, and the theorems on registries at it.
use skene.Prelude.{◌≡◌, ◌⊎◌, refl, lookup, insert, string_key}
use skene.Workflow.Step.{WorkflowDef, with_version}
use skene.River.Registry.{
  Registry, found, failed, workflow_not_found, new_registry, register, get, set_latest,
  latest_version,
}
use skene.River.Registry.Versions.{Made, fresh, registered, get-Made}
use skene.Tests.Demo.{workflow}

abbrev second : WorkflowDef
second = with_version "2" workflow

abbrev both : Registry
both = register second (register workflow new_registry)

both-Made : Made both
both-Made = registered second (registered workflow fresh)

latest_of_both : get "demo" both ≡ found workflow
unfolding get register lookup insert
latest_of_both = refl

latest_chosen : get "demo" (set_latest "demo" "2" both).1 ≡ found second
unfolding get set_latest register lookup insert
latest_chosen = refl

get-Made_example :
    ((def : WorkflowDef) × (get "demo" both ≡ found def)
      × (latest_version "demo" both ≡ found def.version)
      × (def.name ≡ "demo"))
    ⊎ (get "demo" both ≡ failed (workflow_not_found "demo"))
      × (latest_version "demo" both ≡ failed (workflow_not_found "demo"))
get-Made_example = get-Made both "demo" both-Made
