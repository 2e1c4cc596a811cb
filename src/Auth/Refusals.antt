-- ===== src/Auth/Refusals.antt =====
-- Adoptions that are refused (agentiso/src/mcp/auth.rs) change nothing.
use agentiso.Prelude.{
  ℕ, ◌<◌, ◌+◌, ◌≡◌, ◌≢◌, inl, inr, true, false, none, some, Str, err, str_eq, str_beq_iff, nat_eq,
  arith, lt→ltb,
}
use agentiso.Prelude.Dict.{lookup-insert, lookup-remove}
use agentiso.Prelude.Dict
use agentiso.Prelude.Set
use agentiso.Auth.State.{Session, already_owned, AuthManager}
use agentiso.Auth.Adoption.{stale_threshold, check_idle, previous_owner, adopt_workspace}
use agentiso.Auth.Owners.{Other, NoOther, find_owner-Found, find_owner_forced, find_owner_unforced}
use agentiso.Auth.Ownership.{owns_found, IsExclusive, owns_unique}

module _ (sid owner : Str) (w mem disk now : ℕ) (s t : Session) (m : AuthManager)
    (d : Dict.IsDistinct m.sessions) (ex : IsExclusive m)
    (adopting : Dict.lookup sid m.sessions ≡ some s)
    (owning : Dict.lookup owner m.sessions ≡ some t) (o : Set.contains w t.workspaces ≡ true)
    (ne : owner ≢ sid) where
  owner-Other : Other sid w m.sessions owner
  owner-Other = record {
    session = t;
    differs = ground (arith, str_beq_iff owner sid);
    found = owning;
    owns = o;
  }

  -- There is no second owner.
  sole_owner : (p : Str) → Other sid w m.sessions p → p ≡ owner
  sole_owner p x =
      owns_unique m ex p owner w (rw (owns_found p w x.session m x.found) x.owns)
        (rw (owns_found owner w t m owning) o)

  not-NoOther : ¬ NoOther sid w m.sessions
  not-NoOther nobody = ground (arith, nobody owner t owning owner-Other.differs)

  -- A session that was active less than 60 seconds ago cannot be robbed: a forced adoption of its
  -- workspace by another session is refused by name, and changes nothing.
  pub adopt_active_refused :
      now < t.last_activity + stale_threshold
      → adopt_workspace sid w mem disk true now m ≡ (m, err (already_owned w owner))
  unfolding adopt_workspace previous_owner check_idle
  adopt_active_refused active =
      let (q, f) = find_owner_forced sid w none m.sessions in
      elim (find_owner-Found sid w true none q m.sessions d f) [
        | inl (x, nobody) ↦ absurd (not-NoOther nobody)
        | inr (p, x, other) ↦
            let same : q ≡ some owner = ground (arith, sole_owner p other) in
            ground (arith, f, same, lt→ltb now (t.last_activity + stale_threshold) active)
      ]

  -- Without `force` the workspace of another session cannot be adopted at all.
  pub adopt_unforced_refused :
      adopt_workspace sid w mem disk false now m ≡ (m, err (already_owned w owner))
  unfolding adopt_workspace previous_owner
  adopt_unforced_refused = elim (find_owner_unforced sid w none m.sessions d) [
    | inl nobody ↦ absurd (not-NoOther nobody)
    | inr (j, f, other) ↦ ground (arith, f, sole_owner j other)
  ]
