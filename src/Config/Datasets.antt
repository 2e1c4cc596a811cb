-- ===== src/Config/Datasets.antt =====
-- The dataset paths of agentiso/src/config.rs keep workspaces apart.
use agentiso.Prelude.{◌≡◌, ◌≢◌, sym, ◌∙◌, ◌++◌, Str, codes, arith}
use mathlib.Core.List.{append_assoc, append_cancel_left}
use agentiso.Config.Services.{StorageConfig, base_dataset, workspaces_dataset, workspace_dataset}

-- The prefix of all dataset paths.
abbrev root_of : StorageConfig → Str
root_of s = s.zfs_pool ++ codes "/" ++ s.dataset_prefix

workspace_dataset-root_of :
    (id : Str) (s : StorageConfig)
    → workspace_dataset id s ≡ root_of s ++ (codes "/workspaces" ++ (codes "/ws-" ++ id))
unfolding workspace_dataset workspaces_dataset
workspace_dataset-root_of id s =
    append_assoc (root_of s ++ codes "/workspaces") (codes "/ws-") id
    ∙ append_assoc (root_of s) (codes "/workspaces") (codes "/ws-" ++ id)

-- Two workspaces with the same dataset have the same identifier, and no workspace has the dataset
-- of the base image.
pub workspace_dataset-base_dataset :
    (s : StorageConfig)
    → ((a b : Str) → workspace_dataset a s ≡ workspace_dataset b s → a ≡ b)
      × ((a : Str) → workspace_dataset a s ≢ base_dataset s)
unfolding base_dataset workspace_dataset
workspace_dataset-base_dataset s = (
  λ a b e. append_cancel_left (workspaces_dataset s ++ codes "/ws-") a b e,
  λ a e.
      let clash : codes "/workspaces" ++ (codes "/ws-" ++ a) ≡ codes "/base/" ++ s.base_image =
        append_cancel_left (root_of s) (codes "/workspaces" ++ (codes "/ws-" ++ a))
          (codes "/base/" ++ s.base_image)
          (sym (workspace_dataset-root_of a s)
            ∙ e
            ∙ append_assoc (root_of s) (codes "/base/") s.base_image) in
      absurd (ground arith),
)
