-- ===== src/Team/Board/RoundTrip.antt =====
-- Writing a task and reading it back (agentiso/src/team/task_board.rs).
use agentiso.Prelude.{
  ℕ, ◌≡◌, refl, ap, ◌∙◌, ◌≢◌, true, false, some, List, [], ◌∷◌, ◌++◌, Str, codes, str_eq, str_beq,
  nat_eq, ◌==◌, All, str_beq_iff, ok, arith,
}
use agentiso.Prelude.Dict.{Dict}
use agentiso.Team.Board.Task.{display, display_priority, BoardTask}
use agentiso.Team.Board.Markdown.{
  Yaml, strip_prefix, split_first, fence, split_rest, split_frontmatter_raw, strip_cr, lines_from,
  join_lines, trim_newlines, text_at, strings_at,
}
use agentiso.Team.Board.Notes.{
  Libraries, is_blank, find_title, drop_front, drop_back, status_of, priority_of, time_at, task_of,
  parse_task_markdown, front_matter, body_part, render_task_markdown,
}
use agentiso.Team.Board.Lines.{
  status_named-display, priority_named-display, IsLine, lines_from-line, end_lines,
  lines_from-join_lines, ends_well, begins_well, drop_front-begins_well, drop_back-ends_well,
  entries-Given,
}

-- What reading back one task needs of the libraries: the YAML text has no closing line before its
-- end, it is read as the mapping that was written, so are the names in quotes and the times, and
-- trimming keeps the title.
pub record Reads (lib : Libraries) (t : BoardTask) : Type 0 where
  pub closes :
      (rest : Str)
      → split_first fence (trim_newlines (lib.to_yaml (front_matter lib t)) ++ (fence ++ rest))
        ≡ some (trim_newlines (lib.to_yaml (front_matter lib t)), rest)
  pub mapping :
      lib.from_yaml (trim_newlines (lib.to_yaml (front_matter lib t)))
      ≡ some (some (front_matter lib t))
  pub status : lib.quoted (display t.status) ≡ some (display t.status)
  pub priority : lib.quoted (display_priority t.priority) ≡ some (display_priority t.priority)
  pub created_at : lib.parse_time (lib.time_text t.created_at) ≡ some t.created_at
  pub updated_at : lib.parse_time (lib.time_text t.updated_at) ≡ some t.updated_at
  pub title : lib.trim t.title ≡ t.title
  pub empty : lib.trim [] ≡ []

-- A title and a body, given by its lines, that a note keeps: the title is one line and not empty,
-- the body's lines are lines, and neither the first nor the last of them is blank.
pub record Tidy (lib : Libraries) (t : BoardTask) (lines : List Str) : Type 0 where
  pub title : IsLine t.title
  pub named : t.title ≢ []
  pub body : t.body ≡ join_lines lines
  pub all_lines : All IsLine lines
  pub begins : begins_well lib lines ≡ true
  pub ends : ends_well lib lines ≡ true

-- The text after the front matter.
abbrev rendered_body : BoardTask → Libraries → Str
rendered_body t lib = codes "# " ++ (t.title ++ b'\n' ∷ body_part lib t.body)

split_rest-fence :
    (rest : Str) (parts : Str × Str)
    → split_first fence rest ≡ some parts
    → split_rest rest ≡ some parts
unfolding split_rest
split_rest-fence rest parts closed = rw (split_rest, closed)

split_raw-rest :
    (rest : Str) (parts : Str × Str)
    → split_rest rest ≡ some parts
    → split_frontmatter_raw (codes "---" ++ b'\n' ∷ rest) ≡ (some parts.0, parts.1)
unfolding split_frontmatter_raw strip_prefix
split_raw-rest rest parts found = rw (split_frontmatter_raw, found)

split-render :
    (lib : Libraries) (t : BoardTask)
    → Reads lib t
    → split_frontmatter_raw (render_task_markdown lib t)
      ≡ (some (trim_newlines (lib.to_yaml (front_matter lib t))), rendered_body t lib)
unfolding render_task_markdown
split-render lib t reads =
    let yaml = trim_newlines (lib.to_yaml (front_matter lib t)) in
    let rest = yaml ++ (fence ++ rendered_body t lib) in
    split_raw-rest rest (yaml, rendered_body t lib)
      (split_rest-fence rest (yaml, rendered_body t lib) (reads.closes (rendered_body t lib)))

strip_cr-cons : (c : ℕ) (s : Str) → s ≢ [] → strip_cr s ≡ s → strip_cr (c ∷ s) ≡ c ∷ s
unfolding strip_cr
strip_cr-cons c [] full e = absurd (full refl)
strip_cr-cons c (d ∷ s) full e = ap (λ r. c ∷ r) e

module _ (lib : Libraries) (empty : lib.trim [] ≡ []) where
  blank_line : is_blank lib [] ≡ true
  unfolding str_beq
  blank_line = rw (is_blank, empty) refl

  body_part-join_lines :
      (line : Str) (lines : List Str)
      → begins_well lib (line ∷ lines) ≡ true
      → body_part lib (join_lines (line ∷ lines))
        ≡ b'\n' ∷ (join_lines (line ∷ lines) ++ b'\n' ∷ [])
  unfolding join_lines
  body_part-join_lines [] lines begins = absurd (ground (arith, blank_line))
  body_part-join_lines (c ∷ line) [] begins = refl
  body_part-join_lines (c ∷ line) (next ∷ lines) begins = refl

  -- The lines of a body with the blank line before it, trimmed and joined again.
  kept_body :
      (lines : List Str)
      → All IsLine lines
      → begins_well lib lines ≡ true
      → ends_well lib lines ≡ true
      → join_lines
          (drop_back lib (drop_front lib (lines_from [] (body_part lib (join_lines lines)))))
        ≡ join_lines lines
  unfolding drop_front drop_back join_lines str_beq strip_cr
  kept_body [] h begins ends = rw (end_lines, drop_front, drop_back) refl
  kept_body (line ∷ lines) h begins ends =
      rw
        (
          body_part-join_lines line lines begins,
          lines_from-line [] [] (join_lines (line ∷ lines) ++ b'\n' ∷ []) refl,
          lines_from-join_lines line lines h,
          drop_front,
          blank_line,
          drop_front-begins_well lib (line ∷ lines) begins,
          drop_back-ends_well lib (line ∷ lines) ends,
        )
        refl

find_title-heading :
    (lib : Libraries) (title : Str) (rest : List Str)
    → find_title lib ((codes "# " ++ title) ∷ rest) ≡ (lib.trim title, rest)
unfolding find_title strip_prefix
find_title-heading lib title rest = refl

-- The lines of a rendered task after its front matter.
rendered_lines :
    (lib : Libraries) (t : BoardTask) (lines : List Str)
    → Tidy lib t lines
    → lines_from [] (rendered_body t lib)
      ≡ (codes "# " ++ t.title) ∷ lines_from [] (body_part lib t.body)
rendered_lines lib t lines tidy =
    let heading = strip_cr-cons b' ' t.title tidy.named tidy.title.1 in
    lines_from-line [] (codes "# " ++ t.title) (body_part lib t.body) tidy.title.0
    ∙ ap (λ l. l ∷ lines_from [] (body_part lib t.body))
        (strip_cr-cons b'#' (b' ' ∷ t.title) (λ e. absurd (cc)) heading)

-- A front matter with its values known.
task_of_lem :
    (lib : Libraries) (t : BoardTask) (now : ℕ) (m : Dict Str Yaml) (body : Str) (lines : List Str)
    → status_of lib m ≡ some t.status
    → priority_of lib m ≡ some t.priority
    → find_title lib (lines_from [] body) ≡ (t.title, lines)
    → t.title ≢ []
    → text_at (codes "owner") m ≡ t.owner
    → strings_at (codes "depends_on") m ≡ t.depends_on
    → time_at lib (codes "created_at") now m ≡ t.created_at
    → time_at lib (codes "updated_at") now m ≡ t.updated_at
    → join_lines (drop_back lib (drop_front lib lines)) ≡ t.body
    → task_of lib t.id now m body ≡ ok t
unfolding task_of
task_of_lem lib t now m body lines status priority found named owner deps created updated kept =
    let titled : (t.title == []) ≡ false = ground (arith, str_beq_iff t.title []) in
    rw (task_of, status, priority, found, titled, owner, deps, created, updated, kept) refl

task_of-front_matter :
    (lib : Libraries) (t : BoardTask) (lines : List Str) (now : ℕ)
    → Reads lib t
    → Tidy lib t lines
    → task_of lib t.id now (front_matter lib t) (rendered_body t lib) ≡ ok t
unfolding status_of priority_of time_at
task_of-front_matter lib t lines now reads tidy =
    let (status, priority, owner, deps, created, updated) =
      entries-Given lib (display t.status) (display_priority t.priority)
        (lib.time_text t.created_at) (lib.time_text t.updated_at) t.owner t.depends_on in
    let m = front_matter lib t in
    let rest = lines_from [] (body_part lib t.body) in
    task_of_lem lib t now m (rendered_body t lib) rest
      (rw (status_of, status, reads.status) (status_named-display t.status))
      (rw (priority_of, priority, reads.priority) (priority_named-display t.priority))
      (rw (rendered_lines lib t lines tidy, find_title-heading lib t.title rest, reads.title) refl)
      tidy.named owner deps (rw (time_at, created, reads.created_at) refl)
      (rw (time_at, updated, reads.updated_at) refl)
      (rw tidy.body (kept_body lib reads.empty lines tidy.all_lines tidy.begins tidy.ends))

-- A task that is rendered as a note and parsed again under its identifier is the same task, whatever
-- the time of the reading, if the libraries read back what they wrote for this task (`Reads`), its
-- title is one line and not empty, and its body is made of lines of which the first and the last are
-- not blank (`Tidy`); an empty body is allowed.
pub parse-render :
    (lib : Libraries) (t : BoardTask) (lines : List Str) (now : ℕ)
    → Reads lib t
    → Tidy lib t lines
    → parse_task_markdown lib (render_task_markdown lib t) t.id now ≡ ok t
unfolding parse_task_markdown
parse-render lib t lines now reads tidy =
    rw (parse_task_markdown, split-render lib t reads, reads.mapping, split-render lib t reads)
      (task_of-front_matter lib t lines now reads tidy)
