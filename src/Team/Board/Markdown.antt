-- ===== src/Team/Board/Markdown.antt =====
-- The notes of tasks (agentiso/src/team/task_board.rs): `render_task_markdown`,
-- `parse_task_markdown` and `split_frontmatter_raw`. Reading and writing YAML, the texts of times and
-- `str::trim` are parameters.
use agentiso.Prelude.{
  ◌&&◌, Option, none, some, List, [], ◌∷◌, ◌++◌, Str, codes, str_eq, nat_eq, ◌==◌, if◌then◌else◌,
}
use agentiso.Prelude.Dict.{Dict}
use agentiso.Prelude.Dict
use agentiso.Team.Board.Task.{
  TaskStatus, pending, claimed, in_progress, completed, failed, TaskPriority, low, medium, high,
  critical,
}

-- What the code sees of a YAML value: a string, a sequence with its strings (`none` for another
-- element), or something else.
pub data Yaml : Type 0 where
  text : Str → Yaml
  sequence : List (Option Str) → Yaml
  other : Yaml

pub data NoteError : Type 0 where
  no_frontmatter bad_yaml not_a_mapping bad_status bad_priority no_title : NoteError

-- `str::strip_prefix`
unfoldable pub strip_prefix : Str → Str → Option Str
strip_prefix [] s = some s
strip_prefix (c ∷ p) [] = none
strip_prefix (c ∷ p) (d ∷ s) = let rest = strip_prefix p s in if c == d then rest else none

-- `find` with the two slices around the first match.
unfoldable pub split_first : Str → Str → Option (Str × Str)
unfolding strip_prefix
split_first needle [] = elim (strip_prefix needle []) [
  | none ↦ none
  | some after ↦ some ([], after)
]
split_first needle (c ∷ s) =
    let later = split_first needle s in
    elim (strip_prefix needle (c ∷ s)) [
      | some after ↦ some ([], after)
      | none ↦ elim later [ none ↦ none | some (before, after) ↦ some (c ∷ before, after) ]
    ]

-- `strip_suffix`
unfoldable pub strip_suffix : Str → Str → Option Str
strip_suffix suffix [] = if [] == suffix then some [] else none
strip_suffix suffix (c ∷ s) =
    let later = strip_suffix suffix s in
    if c ∷ s == suffix
    then some []
    else elim later [ none ↦ none | some before ↦ some (c ∷ before) ]

abbrev pub fence : Str
fence = b'\n' ∷ codes "---" ++ b'\n' ∷ []

-- The text after the opening line: the first closing line ends the front matter.
unfoldable pub split_rest : Str → Option (Str × Str)
unfolding split_first strip_suffix
split_rest rest = elim (split_first fence rest) [
  | some parts ↦ some parts
  | none ↦ elim (split_first (b'\n' ∷ codes "---" ++ b'\r' ∷ b'\n' ∷ []) rest) [
    | some parts ↦ some parts
    | none ↦ elim (strip_suffix (b'\n' ∷ codes "---") rest) [
      | some yaml ↦ some (yaml, [])
      | none ↦ none
    ]
  ]
]

-- `content[4..]` after "---\n"; after "---\r\n" the line feed stays.
unfoldable pub split_frontmatter_raw : Str → Option Str × Str
unfolding split_rest strip_prefix
split_frontmatter_raw content = elim (strip_prefix (codes "---" ++ b'\n' ∷ []) content) [
  | some rest ↦ elim (split_rest rest) [
    | some (yaml, body) ↦ (some yaml, body)
    | none ↦ (none, content)
  ]
  | none ↦ elim (strip_prefix (codes "---" ++ b'\r' ∷ b'\n' ∷ []) content) [
    | some rest ↦ elim (split_rest (b'\n' ∷ rest)) [
      | some (yaml, body) ↦ (some yaml, body)
      | none ↦ (none, content)
    ]
    | none ↦ (none, content)
  ]
]

-- `str::lines`: a carriage return before the line feed goes too.
unfoldable pub strip_cr : Str → Str
strip_cr [] = []
strip_cr (c ∷ []) = if c == b'\r' then [] else c ∷ []
strip_cr (c ∷ d ∷ s) = c ∷ strip_cr (d ∷ s)

unfoldable pub lines_from : (line : Str) → Str → List Str
unfolding strip_cr
lines_from line [] = if line == [] then [] else line ∷ []
lines_from line (c ∷ s) =
    let closed = lines_from [] s in
    let longer = lines_from (line ++ c ∷ []) s in
    if c == b'\n' then strip_cr line ∷ closed else longer

-- `join("\n")`
unfoldable pub join_lines : List Str → Str
join_lines [] = []
join_lines (l ∷ []) = l
join_lines (l ∷ k ∷ ls) = l ++ b'\n' ∷ join_lines (k ∷ ls)

-- `trim_end_matches('\n')`
unfoldable pub trim_newlines : Str → Str
trim_newlines [] = []
trim_newlines (c ∷ s) =
    let rest = trim_newlines s in if c == b'\n' && rest == [] then [] else c ∷ rest

-- The names of the enums, as serde reads them.
unfoldable pub status_named : Str → Option TaskStatus
status_named s =
    if s == codes "pending"
    then some pending
    else if s == codes "claimed"
    then some claimed
    else if s == codes "inprogress"
    then some in_progress
    else if s == codes "completed"
    then some completed
    else if s == codes "failed"
    then some failed
    else none

unfoldable pub priority_named : Str → Option TaskPriority
priority_named s =
    if s == codes "low"
    then some low
    else if s == codes "medium"
    then some medium
    else if s == codes "high"
    then some high
    else if s == codes "critical"
    then some critical
    else none

-- `as_str` and `as_sequence` of the value under a key.
unfoldable pub text_at : Str → Dict Str Yaml → Option Str
text_at key m = elim (Dict.lookup key m) [
  | none ↦ none
  | some (text s) ↦ some s
  | some (sequence xs) ↦ none
  | some other ↦ none
]

abbrev pub strings : List (Option Str) → List Str
strings [] = []
strings (none ∷ xs) = strings xs
strings (some s ∷ xs) = s ∷ strings xs

unfoldable pub strings_at : Str → Dict Str Yaml → List Str
strings_at key m = elim (Dict.lookup key m) [
  | none ↦ []
  | some (text s) ↦ []
  | some (sequence xs) ↦ strings xs
  | some other ↦ []
]
