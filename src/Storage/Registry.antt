-- ===== src/Storage/Registry.antt =====
-- src/evalops/workspace/storage.py: creating and renaming workspaces, and their mutable state. The
-- identifiers that are drawn, `str.strip` and the time are arguments.
use evalops_lab.Common.{
  ℕ, zero, suc, ◌+◌, String, not, Option, none, some, List, [], ◌∷◌, Result, ok, raise, raise_if,
  insert, member, sort_by, str_lt, ◌==◌, string_eq, if◌then◌else◌, length,
}
use evalops_lab.Models.Workspaces.{WorkspaceRecord, WorkspaceState}
use evalops_lab.Storage.Workspaces.{load_registry, workspace_path, get_workspace}
use evalops_lab.Storage.Disk.{
  StoreError, storage, value_error, exists, is_file, is_link, missing, file, read_model, Disk,
  entry_at, Action, atomic_write,
}
use evalops_lab.Storage.Actions.{◌>>=◌, ◌>>◌, return, query}

abbrev pub put_registry : List String → Disk → Disk
put_registry ids d = record d { registry = file ids }

abbrev pub put_workspace : WorkspaceRecord → Disk → Disk
put_workspace w d = record d { workspaces = insert w.workspace_id (file w) d.workspaces }

unfoldable pub initialize : Action (Unit {0})
initialize d =
    if exists d.registry
    then (query load_registry >>= λ _. return tt) d
    else atomic_write (put_registry []) d

-- `_normalize_display_name`
unfoldable pub normalize_display_name : (String → String) → String → Result StoreError String
normalize_display_name strip name =
    if strip name == ""
    then raise (value_error "workspace display name must not be empty")
    else ok (strip name)

-- `_new_workspace_id`, from the n-th draw on, with fuel.
unfoldable pub new_workspace_id : (ℕ → String) → List String → ℕ → ℕ → Option String
new_workspace_id draw existing zero n = none
new_workspace_id draw existing (suc fuel) n =
    let rest = new_workspace_id draw existing fuel (n + 1) in
    if member (draw n) existing then rest else some (draw n)

-- `create_workspace` from the fresh identifier on.
unfoldable pub create_with_id : String → String → ℕ → List String → Action WorkspaceRecord
create_with_id ws name now ids =
    let w : WorkspaceRecord = record {
      workspace_id = ws;
      display_name = name;
      created_at = now;
      updated_at = now;
    } in
    do
      query (workspace_path ws)
      atomic_write (put_workspace w)
      atomic_write (put_registry (sort_by str_lt (ws ∷ ids)))
      return w

-- `create_workspace` up to the draw of an identifier.
unfoldable pub before_creation : (String → String) → String → Action (String × List String)
unfolding initialize normalize_display_name
before_creation strip display_name = do
  initialize
  name ← query (λ _. normalize_display_name strip display_name)
  ids ← query load_registry
  return (name, ids)

-- `None` is a loop that has used its fuel.
unfoldable pub draw_and_create :
    (ℕ → String)
    → ℕ
    → Result StoreError (String × List String) × Disk
    → Option (Result StoreError WorkspaceRecord × Disk)
unfolding create_with_id
draw_and_create draw now (raise e, d) = some (raise e, d)
draw_and_create draw now (ok (name, ids), d) = elim (new_workspace_id draw ids (length ids + 1) 0) [
  | none ↦ none
  | some ws ↦ some (create_with_id ws name now ids d)
]

unfoldable pub create_workspace :
    (String → String)
    → (ℕ → String)
    → String
    → ℕ
    → Disk
    → Option (Result StoreError WorkspaceRecord × Disk)
unfolding before_creation draw_and_create
create_workspace strip draw display_name now d =
    draw_and_create draw now (before_creation strip display_name d)

unfoldable pub rename_workspace : (String → String) → String → String → ℕ → Action WorkspaceRecord
unfolding normalize_display_name
rename_workspace strip ws display_name now = do
  current ← query (get_workspace ws)
  name ← query (λ _. normalize_display_name strip display_name)
  let renamed : WorkspaceRecord = record current { display_name = name; updated_at = now }
  query (workspace_path ws)
  atomic_write (put_workspace renamed)
  return renamed

unfoldable pub get_workspace_state : String → Disk → Result StoreError WorkspaceState
get_workspace_state ws d = elim (get_workspace ws d) [
  | raise e ↦ raise e
  | ok _ ↦ elim (entry_at ws d.states) as (λ _. Result StoreError WorkspaceState) [
    | missing ↦ ok (record { baseline = none })
    | found ↦
        if not (is_file found)
        then raise (storage "workspace state path is unsafe")
        else read_model "workspace state is invalid" found
  ]
]

unfoldable pub save_workspace_state : String → WorkspaceState → Action (Unit {0})
save_workspace_state ws state = do
  w ← query (get_workspace ws)
  query (λ d. raise_if (is_link (entry_at ws d.states)) (storage "workspace state path is unsafe"))
  atomic_write (λ d. record d { states = insert ws (file state) d.states })
