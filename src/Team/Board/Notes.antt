-- ===== src/Team/Board/Notes.antt =====
-- `parse_task_markdown` and `render_task_markdown` of agentiso/src/team/task_board.rs.
use agentiso.Prelude.{
  ℕ, Bool, Option, none, some, List, [], ◌∷◌, ◌++◌, Str, codes, str_eq, nat_eq, ◌==◌, if◌then◌else◌,
  map, Result, ok, err, fail_if, ◌>>=◌, ◌>>◌,
}
use agentiso.Prelude.Dict.{Dict}
use agentiso.Team.Board.Task.{TaskStatus, display, TaskPriority, display_priority, BoardTask}
use agentiso.Team.Board.Markdown.{
  Yaml, text, sequence, NoteError, no_frontmatter, bad_yaml, not_a_mapping, bad_status,
  bad_priority, no_title, strip_prefix, fence, split_frontmatter_raw, lines_from, join_lines,
  trim_newlines, status_named, priority_named, text_at, strings_at,
}

-- `context` on a missing value.
abbrev pub required {ℓ} : {A : Type ℓ} → NoteError → Option A → Result NoteError A
required e none = err e
required e (some a) = ok a

abbrev pub or_else {ℓ} : {A : Type ℓ} → A → Option A → A
or_else d none = d
or_else d (some a) = a

-- `serde_yaml::to_string` and `from_str` (`none` inside: not a mapping), what serde_yaml reads from
-- a text between double quotes, `to_rfc3339` and `parse_from_rfc3339`, and `str::trim`.
pub record Libraries : Type 0 where
  pub to_yaml : Dict Str Yaml → Str
  pub from_yaml : Str → Option (Option (Dict Str Yaml))
  pub quoted : Str → Option Str
  pub time_text : ℕ → Str
  pub parse_time : Str → Option ℕ
  pub trim : Str → Str

module _ (lib : Libraries) where
  abbrev pub is_blank : Str → Bool
  is_blank line = lib.trim line == []

  -- The loop over the lines: the first heading is the title; blank lines before it are skipped.
  unfoldable pub find_title : List Str → Str × List Str
  unfolding strip_prefix
  find_title [] = ([], [])
  find_title (line ∷ rest) =
      let (title, body) = find_title rest in
      elim (strip_prefix (codes "# ") line) [
        | some heading ↦ (lib.trim heading, rest)
        | none ↦ if is_blank line then (title, body) else (title, line ∷ body)
      ]

  -- The two `while` loops that trim the body.
  unfoldable pub drop_front : List Str → List Str
  drop_front [] = []
  drop_front (line ∷ rest) =
      let later = drop_front rest in if is_blank line then later else line ∷ rest

  unfoldable pub drop_back : List Str → List Str
  drop_back [] = []
  drop_back (line ∷ rest) = elim (drop_back rest) [
    | [] ↦ if is_blank line then [] else line ∷ []
    | last ∷ more ↦ line ∷ last ∷ more
  ]

  -- `serde_yaml::from_str` of the status and of the priority, in quotes.
  unfoldable pub status_of : Dict Str Yaml → Option TaskStatus
  unfolding text_at status_named
  status_of m = elim (lib.quoted (or_else (codes "pending") (text_at (codes "status") m))) [
    | none ↦ none
    | some s ↦ status_named s
  ]

  unfoldable pub priority_of : Dict Str Yaml → Option TaskPriority
  unfolding text_at priority_named
  priority_of m = elim (lib.quoted (or_else (codes "medium") (text_at (codes "priority") m))) [
    | none ↦ none
    | some s ↦ priority_named s
  ]

  -- A time that is missing or cannot be read is the present.
  unfoldable pub time_at : Str → ℕ → Dict Str Yaml → ℕ
  unfolding text_at
  time_at key now m = elim (text_at key m) [ none ↦ now | some s ↦ or_else now (lib.parse_time s) ]

  -- The task, from the front matter and the text after it.
  unfoldable pub task_of : Str → ℕ → Dict Str Yaml → Str → Result NoteError BoardTask
  unfolding status_of priority_of time_at text_at strings_at find_title lines_from drop_front
      drop_back join_lines
  task_of id now m body = do
    status ← required bad_status (status_of m)
    priority ← required bad_priority (priority_of m)
    let (title, lines) = find_title (lines_from [] body)
    fail_if (title == []) no_title
    ok (record {
      id = id;
      title = title;
      status = status;
      owner = text_at (codes "owner") m;
      priority = priority;
      depends_on = strings_at (codes "depends_on") m;
      created_at = time_at (codes "created_at") now m;
      updated_at = time_at (codes "updated_at") now m;
      body = join_lines (drop_back (drop_front lines));
    })

  unfoldable pub parse_task_markdown : Str → (id : Str) → (now : ℕ) → Result NoteError BoardTask
  unfolding split_frontmatter_raw task_of
  parse_task_markdown content id now =
      let (front, body) = split_frontmatter_raw content in
      elim front [
        | none ↦ err no_frontmatter
        | some yaml ↦ elim (lib.from_yaml yaml) [
          | none ↦ err bad_yaml
          | some none ↦ err not_a_mapping
          | some (some m) ↦ task_of id now m body
        ]
      ]

  -- The entries in the order of their insertion; the owner and the dependencies if there are any.
  abbrev pub owner_entry : Option Str → Dict Str Yaml
  owner_entry none = []
  owner_entry (some owner) = (codes "owner", text owner) ∷ []

  abbrev pub depends_on_entry : List Str → Dict Str Yaml
  depends_on_entry [] = []
  depends_on_entry (d ∷ ds) = (codes "depends_on", sequence (map (λ s. some s) (d ∷ ds))) ∷ []

  abbrev pub front_matter : BoardTask → Dict Str Yaml
  front_matter t =
      (codes "status", text (display t.status))
      ∷ (codes "priority", text (display_priority t.priority))
      ∷ (owner_entry t.owner
          ++ (depends_on_entry t.depends_on
              ++ (codes "created_at", text (lib.time_text t.created_at))
                ∷ (codes "updated_at", text (lib.time_text t.updated_at))
                ∷ []))

  abbrev pub body_part : Str → Str
  body_part [] = []
  body_part (c ∷ s) = b'\n' ∷ (c ∷ s) ++ b'\n' ∷ []

  unfoldable pub render_task_markdown : BoardTask → Str
  unfolding trim_newlines display display_priority
  render_task_markdown t =
      codes "---"
      ++ b'\n'
        ∷ (trim_newlines (lib.to_yaml (front_matter t))
            ++ (fence ++ (codes "# " ++ (t.title ++ b'\n' ∷ body_part t.body))))
