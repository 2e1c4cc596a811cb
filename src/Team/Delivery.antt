-- ===== src/Team/Delivery.antt =====
-- What a message does to the mailboxes (agentiso/src/team/message_relay.rs).
use agentiso.Prelude.{
  ℕ, ◌≤◌, ◌≡◌, inl, inr, not, some, List, [], ◌∷◌, ◌++◌, Str, codes, ok, ◌==◌, str_eq, ltb, min,
  length, take, drop, tail, length-append, length-tail, length-take, length-drop, take-append-drop,
  Option-cases, Bool-cases, arith,
}
use agentiso.Prelude.Dict.{Dict, lookup-insert, lookup-retain}
use agentiso.Prelude.Dict
use agentiso.Team.Names.{agent_key}
use agentiso.Team.Relay.{
  TeamMessageEnvelope, AgentMailbox, MessageRelay, Message, Pushes, envelope_to, mailbox, register,
  unregister, unregister_team, store, recipient_keys, broadcast_one, broadcast, send_all, send_one,
  send, receive, max_content_size,
}

-- The inbox of a mailbox is within its capacity, which is not zero.
pub record IsBounded (mb : AgentMailbox) : Type 0 where
  pub roomy : 1 ≤ mb.capacity
  pub within : length mb.inbox ≤ mb.capacity

pub store-IsBounded :
    (e : TeamMessageEnvelope) (mb : AgentMailbox) → IsBounded mb → IsBounded (store e mb)
unfolding store
store-IsBounded e mb b = ground (
  arith,
  length-append (tail mb.inbox) (e ∷ []),
  length-append mb.inbox (e ∷ []),
  length-tail mb.inbox,
)

abbrev pub AllBounded : MessageRelay → Type 0
AllBounded relay = Dict.AllValues IsBounded relay.agents

broadcast_one-AllBounded :
    (m : Message) (key : Str) (acc : Dict Str AgentMailbox × Pushes)
    → Dict.AllValues IsBounded acc.0
    → Dict.AllValues IsBounded (broadcast_one m key acc).0
unfolding broadcast_one
broadcast_one-AllBounded m key (agents, pushes) b = elim (Option-cases (Dict.lookup key agents)) [
  | inl e ↦ rw (e, broadcast_one) b
  | inr (mb, e) ↦
      rw (e, broadcast_one)
        (Dict.insert-AllValues IsBounded key _ agents b (
          store-IsBounded (envelope_to mb.agent_name m) mb
            (Dict.lookup-AllValues IsBounded key mb agents b e)))
]

broadcast-AllBounded :
    (m : Message) (keys : List Str) (acc : Dict Str AgentMailbox × Pushes)
    → Dict.AllValues IsBounded acc.0
    → Dict.AllValues IsBounded (broadcast m keys acc).0
unfolding broadcast
broadcast-AllBounded m [] acc b = b
broadcast-AllBounded m (key ∷ keys) acc b =
    broadcast-AllBounded m keys (broadcast_one m key acc) (broadcast_one-AllBounded m key acc b)

pub data Call : Type 0 where
  registers : (agent_name team : Str) → ℕ → Call
  unregisters : (agent_name team : Str) → Call
  unregisters_team : Str → Call
  sends : (team to : Str) → Message → Call
  receives : (team agent_name : Str) → (limit : ℕ) → Call

unfoldable pub step : Call → MessageRelay → MessageRelay
step (registers agent_name team w) relay = register agent_name team w relay
step (unregisters agent_name team) relay = unregister agent_name team relay
step (unregisters_team team) relay = unregister_team team relay
step (sends team to m) relay = (send team to m relay).0
step (receives team agent_name limit) relay = (receive team agent_name limit relay).0

send_one-AllBounded :
    (team to : Str) (m : Message) (relay : MessageRelay)
    → AllBounded relay
    → AllBounded (send_one team to m relay).0
unfolding send_one
send_one-AllBounded team to m relay b =
    elim (Option-cases (Dict.lookup (agent_key team to) relay.agents)) [
      | inl e ↦ rw (e, send_one) b
      | inr (mb, e) ↦
          rw (e, send_one)
            (Dict.insert-AllValues IsBounded (agent_key team to) _ relay.agents b (
              store-IsBounded (envelope_to to m) mb
                (Dict.lookup-AllValues IsBounded (agent_key team to) mb relay.agents b e)))
    ]

send-AllBounded :
    (team to : Str) (m : Message) (relay : MessageRelay)
    → AllBounded relay
    → AllBounded (send team to m relay).0
unfolding send send_all
send-AllBounded team to m relay b = elim (Bool-cases (ltb max_content_size (length m.content))) [
  | inl large ↦ rw large b
  | inr fits ↦ elim (Bool-cases (Dict.contains_key (agent_key team m.from) relay.agents)) [
    | inr unknown ↦ rw (fits, unknown) b
    | inl known ↦ elim (Bool-cases (to == codes "*")) [
      | inl everybody ↦
          rw (fits, known, everybody)
            (broadcast-AllBounded m (recipient_keys team m.from relay.agents) (relay.agents, []) b)
      | inr one ↦ rw (fits, known, one) (send_one-AllBounded team to m relay b)
    ]
  ]
]

receive-AllBounded :
    (team name : Str) (limit : ℕ) (relay : MessageRelay)
    → AllBounded relay
    → AllBounded (receive team name limit relay).0
unfolding receive
receive-AllBounded team name limit relay b =
    elim (Option-cases (Dict.lookup (agent_key team name) relay.agents)) [
      | inl e ↦ rw (e, receive) b
      | inr (mb, e) ↦
          let was : IsBounded mb =
            Dict.lookup-AllValues IsBounded (agent_key team name) mb relay.agents b e in
          let count = min limit (length mb.inbox) in
          rw (e, receive)
            (Dict.insert-AllValues IsBounded (agent_key team name) _ relay.agents b (record {
              roomy = was.roomy;
              within = omega (arith, length-drop count mb.inbox, was.within);
            }))
    ]

-- Every call keeps every inbox within its capacity.
pub step-AllBounded :
    (c : Call) (relay : MessageRelay) → AllBounded relay → AllBounded (step c relay)
unfolding step register unregister unregister_team
step-AllBounded (registers name team w) relay b =
    Dict.insert-AllValues IsBounded (agent_key team name) (mailbox name team w) relay.agents b
      (record { roomy = omega arith; within = omega arith })
step-AllBounded (unregisters name team) relay b =
    Dict.remove-AllValues IsBounded (agent_key team name) relay.agents b
step-AllBounded (unregisters_team team) relay b =
    Dict.retain-AllValues IsBounded (λ key mb. not (mb.team == team)) relay.agents b
step-AllBounded (sends team to m) relay b = send-AllBounded team to m relay b
step-AllBounded (receives team name limit) relay b = receive-AllBounded team name limit relay b

-- `receive` hands out the oldest messages, as many as there are up to the limit, and leaves the
-- rest in their order.
pub receive-splits :
    (team name : Str) (limit : ℕ) (relay : MessageRelay) (mb : AgentMailbox)
    → Dict.lookup (agent_key team name) relay.agents ≡ some mb
    → (msgs rest : List TeamMessageEnvelope) × ((receive team name limit relay).1 ≡ ok msgs)
      × (Dict.lookup (agent_key team name) (receive team name limit relay).0.agents
          ≡ some (record mb { inbox = rest }))
      × (msgs ++ rest ≡ mb.inbox)
      × (length msgs ≡ min limit (length mb.inbox))
unfolding receive
receive-splits team name limit relay mb e =
    let count = min limit (length mb.inbox) in
    (
      take count mb.inbox,
      drop count mb.inbox,
      rw (e, receive),
      rw (e, receive) (Dict.lookup-insert_self (agent_key team name) _ relay.agents),
      take-append-drop count mb.inbox,
      omega (arith, length-take count mb.inbox),
    )
