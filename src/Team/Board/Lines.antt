-- ===== src/Team/Board/Lines.antt =====
-- The lines of a note and the entries of its front matter (agentiso/src/team/task_board.rs).
use agentiso.Prelude.{
  ◌≡◌, refl, Bool, true, not, Option, none, some, List, [], ◌∷◌, ◌++◌, Str, codes, str_eq, str_beq,
  nat_eq, ◌==◌, map, all, All, Bool-cases, inl, inr, arith,
}
use mathlib.Core.List.{append_assoc, append-nil}
use agentiso.Prelude.Dict.{Dict}
use agentiso.Prelude.Dict
use agentiso.Team.Board.Task.{
  TaskStatus, pending, claimed, in_progress, completed, failed, display, TaskPriority, low, medium,
  high, critical, display_priority,
}
use agentiso.Team.Board.Markdown.{
  Yaml, text, strip_cr, lines_from, join_lines, status_named, priority_named, text_at, strings,
  strings_at,
}
use agentiso.Team.Board.Notes.{
  Libraries, is_blank, drop_front, drop_back, owner_entry, depends_on_entry,
}

pub status_named-display : (s : TaskStatus) → status_named (display s) ≡ some s
unfolding status_named display str_beq
status_named-display pending = refl
status_named-display claimed = refl
status_named-display in_progress = refl
status_named-display completed = refl
status_named-display failed = refl

pub priority_named-display : (p : TaskPriority) → priority_named (display_priority p) ≡ some p
unfolding priority_named display_priority str_beq
priority_named-display low = refl
priority_named-display medium = refl
priority_named-display high = refl
priority_named-display critical = refl

-- A line: without a line feed, and not ended by a carriage return.
abbrev pub IsLine : Str → Type 0
IsLine line = (all (λ c. not (c == b'\n')) line ≡ true) × (strip_cr line ≡ line)

pub lines_from-line :
    (before line rest : Str)
    → all (λ c. not (c == b'\n')) line ≡ true
    → lines_from before (line ++ b'\n' ∷ rest) ≡ strip_cr (before ++ line) ∷ lines_from [] rest
unfolding lines_from
lines_from-line before [] rest e = rw (append-nil before)
lines_from-line before (c ∷ line) rest e = elim (Bool-cases (c == b'\n')) [
  | inl feed ↦ absurd (ground arith)
  | inr other ↦ rw (
    other,
    lines_from-line (before ++ c ∷ []) line rest (ground arith),
    append_assoc before (c ∷ []) line,
  )
]

pub end_lines : lines_from [] [] ≡ []
unfolding lines_from str_beq
end_lines = refl

pub lines_from-join_lines :
    (line : Str) (lines : List Str)
    → All IsLine (line ∷ lines)
    → lines_from [] (join_lines (line ∷ lines) ++ b'\n' ∷ []) ≡ line ∷ lines
unfolding join_lines
lines_from-join_lines line [] (h, more) = rw (lines_from-line [] line [] h.0, h.1, end_lines)
lines_from-join_lines line (next ∷ lines) (h, more) = rw (
  append_assoc line (b'\n' ∷ join_lines (next ∷ lines)) (b'\n' ∷ []),
  lines_from-line [] line (join_lines (next ∷ lines) ++ b'\n' ∷ []) h.0,
  h.1,
  lines_from-join_lines next lines more,
)

pub strings-map : (xs : List Str) → strings (map (λ s. some s) xs) ≡ xs
strings-map [] = refl
strings-map (x ∷ xs) = rw (strings-map xs)

module _ (lib : Libraries) where
  -- Whether the last line, or the first, is not blank; an empty list passes.
  abbrev pub ends_well : List Str → Bool
  ends_well [] = true
  ends_well (line ∷ []) = not (is_blank lib line)
  ends_well (line ∷ next ∷ lines) = ends_well (next ∷ lines)

  abbrev pub begins_well : List Str → Bool
  begins_well [] = true
  begins_well (line ∷ lines) = not (is_blank lib line)

  pub drop_front-begins_well :
      (lines : List Str) → begins_well lines ≡ true → drop_front lib lines ≡ lines
  unfolding drop_front
  drop_front-begins_well [] e = refl
  drop_front-begins_well (line ∷ lines) e = ground arith

  pub drop_back-ends_well :
      (lines : List Str) → ends_well lines ≡ true → drop_back lib lines ≡ lines
  unfolding drop_back
  drop_back-ends_well [] e = refl
  drop_back-ends_well (line ∷ []) e = ground arith
  drop_back-ends_well (line ∷ next ∷ lines) e = rw (drop_back-ends_well (next ∷ lines) e)

  abbrev pub entries :
      (status priority created updated : Str) → Option Str → List Str → Dict Str Yaml
  entries status priority created updated owner deps =
      (codes "status", text status)
      ∷ (codes "priority", text priority)
      ∷ (owner_entry lib owner
          ++ (depends_on_entry lib deps
              ++ (codes "created_at", text created) ∷ (codes "updated_at", text updated) ∷ []))

  -- What the entries give back.
  abbrev pub Given : (status priority created updated : Str) → Option Str → List Str → Type 0
  Given status priority created updated owner deps =
      let m = entries status priority created updated owner deps in
      (text_at (codes "status") m ≡ some status)
      × (text_at (codes "priority") m ≡ some priority)
      × (text_at (codes "owner") m ≡ owner)
      × (strings_at (codes "depends_on") m ≡ deps)
      × (text_at (codes "created_at") m ≡ some created)
      × (text_at (codes "updated_at") m ≡ some updated)

  pub entries-Given :
      (status priority created updated : Str) (owner : Option Str) (deps : List Str)
      → Given status priority created updated owner deps
  unfolding Dict.lookup str_beq text_at strings_at
  entries-Given s p c u none [] = (refl, refl, refl, refl, refl, refl)
  entries-Given s p c u none (d ∷ ds) = (refl, refl, refl, strings-map (d ∷ ds), refl, refl)
  entries-Given s p c u (some owner) [] = (refl, refl, refl, refl, refl, refl)
  entries-Given s p c u (some owner) (d ∷ ds) = (refl, refl, refl, strings-map (d ∷ ds), refl, refl)
