-- ===== src/Auth/Owners.antt =====
-- What the search for another owner finds (`adopt_workspace` of agentiso/src/mcp/auth.rs).
use agentiso.Prelude.{
  ℕ, ◌≡◌, refl, ◌⊎◌, inl, inr, Bool, true, false, not, ◌&&◌, Option, none, some, ◌∷◌, [], Str, ok,
  err, ◌==◌, str_eq, str_beq_iff, nat_eq, Bool-cases, arith,
}
use agentiso.Prelude.Dict.{Dict, lookup-insert}
use agentiso.Prelude.Dict
use agentiso.Prelude.Set
use agentiso.Auth.State.{Uuid, Session, already_owned, AuthManager}
use agentiso.Auth.Workspaces.{give_up}
use agentiso.Auth.Adoption.{find_owner, strip, current, previous_owner}
use agentiso.Auth.Cases.{Result-cases}

-- Nobody but `sid` owns the workspace.
abbrev pub NoOther : Str → Uuid → Dict Str Session → Type 0
NoOther sid w l =
    (j : Str) (s : Session)
    → Dict.lookup j l ≡ some s
    → (j == sid) ≡ false
    → Set.contains w s.workspaces ≡ false

-- A session other than `sid` that owns the workspace.
pub record Other (sid : Str) (w : Uuid) (l : Dict Str Session) (p : Str) : Type 0 where
  pub session : Session
  pub differs : (p == sid) ≡ false
  pub found : Dict.lookup p l ≡ some session
  pub owns : Set.contains w session.workspaces ≡ true

module _ (sid : Str) (w : Uuid) where
  Other-cons :
      (j : Str) (s : Session) (l : Dict Str Session) (p : Str)
      → Dict.lookup j l ≡ none
      → Other sid w l p
      → Other sid w ((j, s) ∷ l) p
  unfolding Dict.lookup
  Other-cons j s l p fresh o = record {
    session = o.session;
    differs = o.differs;
    found = ground (arith, str_beq_iff j p, o.found);
    owns = o.owns;
  }

  NoOther-cons :
      (j : Str) (s : Session) (l : Dict Str Session)
      → (not (j == sid) && Set.contains w s.workspaces) ≡ false
      → NoOther sid w l
      → NoOther sid w ((j, s) ∷ l)
  unfolding Dict.lookup
  NoOther-cons j s l this rest k t e d = ground (arith, str_beq_iff j k, rest k t)

  Other-here :
      (j : Str) (s : Session) (l : Dict Str Session)
      → (not (j == sid) && Set.contains w s.workspaces) ≡ true
      → Other sid w ((j, s) ∷ l) j
  unfolding Dict.lookup
  Other-here j s l other = record {
    session = s;
    differs = ground arith;
    found = ground (arith, str_beq_iff j j);
    owns = ground arith;
  }

  -- Either nobody else owns the workspace, or the session that was kept does.
  abbrev pub Found : Dict Str Session → Option Str → Option Str → Type 0
  Found l previous q =
      ((q ≡ previous) × NoOther sid w l) ⊎ ((p : Str) × (q ≡ some p) × Other sid w l p)

  pub find_owner-Found :
      (force : Bool) (previous q : Option Str) (l : Dict Str Session)
      → Dict.IsDistinct l
      → find_owner sid w force previous l ≡ ok q
      → Found l previous q
  unfolding find_owner Dict.lookup
  find_owner-Found force previous q [] d e = inl (ground arith, λ j s f. cc)
  find_owner-Found force previous q ((j, s) ∷ l) d e =
      elim (Bool-cases (not (j == sid) && Set.contains w s.workspaces)) [
        | inr passed ↦ elim (find_owner-Found force previous q l d.1 (rw passed at e)) [
          | inl (same, nobody) ↦ inl (same, NoOther-cons j s l passed nobody)
          | inr (p, eq, o) ↦ inr (p, eq, Other-cons j s l p d.0 o)
        ]
        | inl other ↦ elim (Bool-cases force) [
          | inr free ↦ absurd (ground arith)
          | inl forced ↦ elim (find_owner-Found force (some j) q l d.1 (rw (other, forced) at e)) [
            | inl (same, nobody) ↦ inr (j, same, Other-here j s l other)
            | inr (p, eq, o) ↦ inr (p, eq, Other-cons j s l p d.0 o)
          ]
        ]
      ]

  -- With `force` the search never fails.
  pub find_owner_forced :
      (previous : Option Str) (l : Dict Str Session)
      → (q : Option Str) × (find_owner sid w true previous l ≡ ok q)
  unfolding find_owner
  find_owner_forced previous [] = (previous, refl)
  find_owner_forced previous ((j, s) ∷ l) =
      elim (Bool-cases (not (j == sid) && Set.contains w s.workspaces)) [
        | inl other ↦ rw other (find_owner_forced (some j) l)
        | inr passed ↦ rw passed (find_owner_forced previous l)
      ]

  -- Without it the search fails at the first other owner.
  pub find_owner_unforced :
      (previous : Option Str) (l : Dict Str Session)
      → Dict.IsDistinct l
      → NoOther sid w l
        ⊎ ((j : Str) × (find_owner sid w false previous l ≡ err (already_owned w j))
            × Other sid w l j)
  unfolding find_owner Dict.lookup
  find_owner_unforced previous [] d = inl (λ j s f. cc)
  find_owner_unforced previous ((j, s) ∷ l) d =
      elim (Bool-cases (not (j == sid) && Set.contains w s.workspaces)) [
        | inl other ↦ inr (j, rw other, Other-here j s l other)
        | inr passed ↦ elim (find_owner_unforced previous l d.1) [
          | inl nobody ↦ inl (NoOther-cons j s l passed nobody)
          | inr (k, f, o) ↦ inr (k, rw passed f, Other-cons j s l k d.0 o)
        ]
      ]

  -- The previous owner that an adoption strips is another session, which owns the workspace.
  pub previous_owner-Found :
      (force : Bool) (now : ℕ) (m : AuthManager) (q : Option Str)
      → Dict.IsDistinct m.sessions
      → previous_owner sid w force now m ≡ ok q
      → Found m.sessions none q
  unfolding previous_owner
  previous_owner-Found force now m q d e =
      elim (Result-cases (find_owner sid w force none m.sessions)) [
        | inr (x, f) ↦ absurd (ground arith)
        | inl (r, f) ↦ find_owner-Found force none q m.sessions d (ground arith)
      ]

  -- So the stripping leaves the adopting session alone.
  pub current-strip :
      (mem disk : ℕ) (m : AuthManager) (s : Session) (q : Option Str)
      → Dict.lookup sid m.sessions ≡ some s
      → Found m.sessions none q
      → current sid s (strip q w mem disk m) ≡ s
  unfolding strip
  current-strip mem disk m s none e f = ground arith
  current-strip mem disk m s (some p) e (inl (x, _)) = absurd (cc)
  current-strip mem disk m s (some p) e (inr (j, x, o)) =
      ground
        (arith, o.differs, o.found, lookup-insert p sid (give_up w mem disk o.session) m.sessions)
