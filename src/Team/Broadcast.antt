-- ===== src/Team/Broadcast.antt =====
-- Who gets a message (agentiso/src/team/message_relay.rs).
use mathlib.Core.Option
use agentiso.Prelude.{
  ℕ, ◌≤◌, ◌≡◌, refl, ◌∙◌, ◌≢◌, inl, inr, false, not, none, some, List, [], ◌∷◌, Str, codes, ok, err,
  ◌==◌, str_eq, str_beq_iff, if◌then◌else◌, Option-cases, Bool-cases, arith, drop, tail, length,
  ◌-◌, ◌++◌, leb, length-append,
}
use agentiso.Prelude.Dict.{Dict, lookup-insert, lookup-retain}
use agentiso.Prelude.Dict
use agentiso.Prelude.Set
use agentiso.Team.Names.{agent_key}
use agentiso.Team.Delivery.{IsBounded, AllBounded}
use agentiso.Team.Relay.{
  TeamMessageEnvelope, AgentMailbox, RelayError, MessageRelay, Message, Pushes, envelope_to, store,
  is_recipient, recipient_keys, broadcast_one, broadcast, send_all, send_one, send, unregister_team,
}

-- The `n` newest messages of an inbox.
abbrev pub newest : ℕ → List TeamMessageEnvelope → List TeamMessageEnvelope
newest n inbox = drop (length inbox - n) inbox

-- The mailbox that has got the message last, addressed to its agent, and has kept as many of the
-- newest messages as it has room for.
abbrev pub delivered : Message → AgentMailbox → AgentMailbox
delivered m mb = record mb {
  inbox = newest mb.capacity (mb.inbox ++ envelope_to mb.agent_name m ∷ []);
}

drop-append :
    (e : TeamMessageEnvelope) (inbox : List TeamMessageEnvelope)
    → 1 ≤ length inbox
    → drop 1 (inbox ++ e ∷ []) ≡ tail inbox ++ e ∷ []
drop-append e [] h = absurd (omega arith)
drop-append e (x ∷ inbox) h = refl

-- In a mailbox that is within its capacity `store` delivers.
store-delivered :
    (m : Message) (mb : AgentMailbox)
    → IsBounded mb
    → store (envelope_to mb.agent_name m) mb ≡ delivered m mb
unfolding store
store-delivered m mb b =
    let e = envelope_to mb.agent_name m in
    let longer = length-append mb.inbox (e ∷ []) in
    elim (Bool-cases (leb mb.capacity (length mb.inbox))) [
      | inl full ↦
          let over : length (mb.inbox ++ e ∷ []) - mb.capacity ≡ 1 = ground (arith, b.within) in
          let cut = drop-append e mb.inbox (ground (arith, b.roomy)) in rw (full, over) (cc)
      | inr room ↦
          let fits : length (mb.inbox ++ e ∷ []) - mb.capacity ≡ 0 = ground arith in
          rw (room, fits) refl
    ]

-- The mailbox as `store` leaves it.
abbrev stored : Message → AgentMailbox → AgentMailbox
stored m mb = store (envelope_to mb.agent_name m) mb

broadcast_one-lookup :
    (m : Message) (key k : Str) (acc : Dict Str AgentMailbox × Pushes)
    → Dict.lookup k (broadcast_one m key acc).0
      ≡ (if key == k then Option.map (stored m) (Dict.lookup k acc.0) else Dict.lookup k acc.0)
unfolding broadcast_one
broadcast_one-lookup m key k (agents, pushes) = elim (Option-cases (Dict.lookup key agents)) [
  | inl e ↦ rw (e, broadcast_one) (ground (arith, str_beq_iff key k))
  | inr (mb, e) ↦
      rw (e, broadcast_one)
        (ground (arith, str_beq_iff key k, lookup-insert key k (stored m mb) agents))
]

broadcast-lookup :
    (m : Message) (keys : List Str) (k : Str) (acc : Dict Str AgentMailbox × Pushes)
    → Set.IsDistinct keys
    → Dict.lookup k (broadcast m keys acc).0 ≡ (
        if Set.contains k keys
        then Option.map (stored m) (Dict.lookup k acc.0)
        else Dict.lookup k acc.0)
unfolding broadcast Set.contains
broadcast-lookup m [] k acc d = refl
broadcast-lookup m (key ∷ keys) k acc d =
    broadcast-lookup m keys k (broadcast_one m key acc) d.1
    ∙ ground (arith, broadcast_one-lookup m key k acc, str_beq_iff key k, d.0)

module _ (team from : Str) where
  absent_key :
      (k : Str) (agents : Dict Str AgentMailbox)
      → Dict.lookup k agents ≡ none
      → Set.contains k (recipient_keys team from agents) ≡ false
  unfolding recipient_keys Dict.lookup Set.contains
  absent_key k [] e = refl
  absent_key k ((j, mb) ∷ rest) e = elim (Bool-cases (j == k)) [
    | inl this ↦ absurd (ground arith)
    | inr other ↦ ground (arith, absent_key k rest (rw other at e))
  ]

  recipient_keys-contains :
      (k : Str) (mb : AgentMailbox) (agents : Dict Str AgentMailbox)
      → Dict.IsDistinct agents
      → Dict.lookup k agents ≡ some mb
      → Set.contains k (recipient_keys team from agents) ≡ is_recipient team from mb
  unfolding recipient_keys Dict.lookup Set.contains
  recipient_keys-contains k mb [] d e = absurd (cc)
  recipient_keys-contains k mb ((j, x) ∷ rest) d e = elim (Bool-cases (j == k)) [
    | inl this ↦
        let same : j ≡ k = (str_beq_iff j k).0 this in
        let held : x ≡ mb = ground arith in
        let fresh : Set.contains k (recipient_keys team from rest) ≡ false =
          absent_key k rest (rw same at d.0) in
        rw held (ground arith)
    | inr other ↦ ground (arith, recipient_keys-contains k mb rest d.1 (rw other at e))
  ]

  recipient_keys-IsDistinct :
      (agents : Dict Str AgentMailbox)
      → Dict.IsDistinct agents
      → Set.IsDistinct (recipient_keys team from agents)
  unfolding recipient_keys
  recipient_keys-IsDistinct [] d = tt
  recipient_keys-IsDistinct ((j, x) ∷ rest) d = elim (Bool-cases (is_recipient team from x)) [
    | inl gets ↦ rw gets (absent_key j rest d.0, recipient_keys-IsDistinct rest d.1)
    | inr passed ↦ rw passed (recipient_keys-IsDistinct rest d.1)
  ]

module _ (team to : Str) (m : Message) (relay : MessageRelay) where
  -- A call of `send` that fails changes no mailbox and pushes nothing.
  pub send_error_unchanged :
      (e : RelayError)
      → (send team to m relay).2 ≡ err e
      → ((send team to m relay).0 ≡ relay) × ((send team to m relay).1 ≡ [])
  unfolding send send_one send_all
  send_error_unchanged e h = ground arith

  -- A broadcast that succeeds, with every inbox within its capacity, reaches exactly the agents of
  -- the team but the sender: each has the message, under its own name, as the last of its inbox,
  -- after the newest messages that it had, as many as there is room for; every other mailbox stays
  -- as it is.
  pub send_all-lookup :
      (id k : Str)
      → Dict.IsDistinct relay.agents
      → AllBounded relay
      → to ≡ codes "*"
      → (send team to m relay).2 ≡ ok id
      → Dict.lookup k (send team to m relay).0.agents
        ≡ Option.map
            (λ mb. if is_recipient team m.from mb then delivered m mb else mb)
            (Dict.lookup k relay.agents)
  unfolding send send_all
  send_all-lookup id k d bounded all h =
      let law =
        broadcast-lookup m (recipient_keys team m.from relay.agents) k (relay.agents, [])
          (recipient_keys-IsDistinct team m.from relay.agents d) in
      elim (Option-cases (Dict.lookup k relay.agents)) [
        | inl e ↦ ground (arith, law, e, (str_beq_iff to (codes "*")).1 all)
        | inr (mb, e) ↦
            let bound = Dict.lookup-AllValues IsBounded k mb relay.agents bounded e in
            let same = store-delivered m mb bound in
            let chosen = recipient_keys-contains team m.from k mb relay.agents d e in
            let everybody = (str_beq_iff to (codes "*")).1 all in
            elim (Bool-cases (is_recipient team m.from mb)) [
              | inl gets ↦ ground (arith, law, e, gets, chosen, everybody, same)
              | inr passed ↦ ground (arith, law, e, passed, chosen, everybody)
            ]
      ]

  -- A direct message that is sent reaches exactly the agent of that name in the sender's team.
  pub send_one-lookup :
      (id k : Str)
      → to ≢ codes "*"
      → (send team to m relay).2 ≡ ok id
      → Dict.lookup k (send team to m relay).0.agents ≡ (
          if agent_key team to == k
          then Option.map (store (envelope_to to m)) (Dict.lookup k relay.agents)
          else Dict.lookup k relay.agents)
  unfolding send send_one
  send_one-lookup id k one h = elim (Option-cases (Dict.lookup (agent_key team to) relay.agents)) [
    | inl e ↦ absurd (ground (arith, str_beq_iff to (codes "*")))
    | inr (mb, e) ↦ ground (
      arith,
      str_beq_iff to (codes "*"),
      str_beq_iff (agent_key team to) k,
      lookup-insert (agent_key team to) k (store (envelope_to to m) mb) relay.agents,
    )
  ]

-- Unregistering a team removes exactly the mailboxes of that team.
pub unregister_team-lookup :
    (team k : Str) (relay : MessageRelay)
    → Dict.IsDistinct relay.agents
    → Dict.lookup k (unregister_team team relay).agents ≡ elim (Dict.lookup k relay.agents) [
      | none ↦ none
      | some mb ↦ if mb.team == team then none else some mb
    ]
unfolding unregister_team
unregister_team-lookup team k relay d = ground (
  arith,
  lookup-retain (λ (key : Str) (mb : AgentMailbox). not (mb.team == team)) k relay.agents d,
)
