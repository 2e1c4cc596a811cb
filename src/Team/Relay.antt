-- ===== src/Team/Relay.antt =====
-- The message relay of agentiso/src/team/message_relay.rs. Each method holds the lock on the map
-- of agents, so a method is one step. The message identifier and the time are arguments; the calls
-- of the push callback are a result of `send`.
use agentiso.Prelude.{
  ℕ, ◌*◌, Bool, true, false, not, ◌&&◌, Option, none, some, List, [], ◌∷◌, ◌++◌, Str, codes, Result,
  ok, err, ◌==◌, str_eq, ltb, leb, min, length, take, drop, tail, if◌then◌else◌,
}
use mathlib.Core.Option
use agentiso.Prelude.Dict.{Dict}
use agentiso.Prelude.Dict
use agentiso.Team.Names.{agent_key}

abbrev pub default_inbox_capacity : ℕ
default_inbox_capacity = 100

abbrev pub max_content_size : ℕ
max_content_size = 256 * 1024

pub record TeamMessageEnvelope : Type 0 where
  pub message_id : Str
  pub from : Str
  pub to : Str
  pub content : Str
  pub message_type : Str
  pub timestamp : Str

-- The inbox, oldest first.
pub record AgentMailbox : Type 0 where
  pub team : Str
  pub agent_name : Str
  pub workspace_id : ℕ
  pub inbox : List TeamMessageEnvelope
  pub capacity : ℕ

pub data RelayError : Type 0 where
  content_too_large : ℕ → RelayError
  sender_not_registered : Str → Str → RelayError
  recipient_not_registered : Str → Str → RelayError
  agent_not_registered : Str → Str → RelayError

-- Whether a push callback is set.
pub record MessageRelay : Type 0 where
  pub agents : Dict Str AgentMailbox
  pub push_callback : Bool

unfoldable pub new : MessageRelay
new = record { agents = []; push_callback = false }

unfoldable pub set_push_callback : MessageRelay → MessageRelay
set_push_callback relay = record relay { push_callback = true }

abbrev pub mailbox : (agent_name team : Str) → ℕ → AgentMailbox
mailbox agent_name team workspace_id = record {
  team = team;
  agent_name = agent_name;
  workspace_id = workspace_id;
  inbox = [];
  capacity = default_inbox_capacity;
}

unfoldable pub register : (agent_name team : Str) → ℕ → MessageRelay → MessageRelay
register agent_name team workspace_id relay = record relay {
  agents =
      Dict.insert (agent_key team agent_name) (mailbox agent_name team workspace_id) relay.agents;
}

unfoldable pub unregister : (agent_name team : Str) → MessageRelay → MessageRelay
unregister agent_name team relay = record relay {
  agents = Dict.remove (agent_key team agent_name) relay.agents;
}

unfoldable pub unregister_team : Str → MessageRelay → MessageRelay
unregister_team team relay = record relay {
  agents = Dict.retain (λ key mb. not (mb.team == team)) relay.agents;
}

-- A full inbox loses its oldest message.
unfoldable pub store : TeamMessageEnvelope → AgentMailbox → AgentMailbox
store envelope mb = record mb {
  inbox = (if leb mb.capacity (length mb.inbox) then tail mb.inbox else mb.inbox) ++ envelope ∷ [];
}

pub record Message : Type 0 where
  pub from : Str
  pub content : Str
  pub message_type : Str
  pub message_id : Str
  pub timestamp : Str

abbrev pub envelope_to : Str → Message → TeamMessageEnvelope
envelope_to to m = record {
  message_id = m.message_id;
  from = m.from;
  to = to;
  content = m.content;
  message_type = m.message_type;
  timestamp = m.timestamp;
}

abbrev pub is_recipient : (team from : Str) → AgentMailbox → Bool
is_recipient team from mb = mb.team == team && not (mb.agent_name == from)

unfoldable pub recipient_keys : (team from : Str) → Dict Str AgentMailbox → List Str
recipient_keys team from [] = []
recipient_keys team from ((key, mb) ∷ rest) =
    let keys = recipient_keys team from rest in
    if is_recipient team from mb then key ∷ keys else keys

-- What the callback is called with: the recipient's name and the envelope.
abbrev pub Pushes : Type 0
Pushes = List (Str × TeamMessageEnvelope)

-- One round of the loop over the keys of a broadcast.
unfoldable pub broadcast_one :
    Message → Str → Dict Str AgentMailbox × Pushes → Dict Str AgentMailbox × Pushes
broadcast_one m key (agents, pushes) = elim (Dict.lookup key agents) [
  | none ↦ (agents, pushes)
  | some mb ↦ (
    Dict.insert key (store (envelope_to mb.agent_name m) mb) agents,
    pushes ++ (mb.agent_name, envelope_to mb.agent_name m) ∷ [],
  )
]

unfoldable pub broadcast :
    Message → List Str → Dict Str AgentMailbox × Pushes → Dict Str AgentMailbox × Pushes
broadcast m [] acc = acc
broadcast m (key ∷ keys) acc = broadcast m keys (broadcast_one m key acc)

-- The state after a call, the pushes made, and the message identifier or an error.
abbrev pub Sent : Type 0
Sent = MessageRelay × Pushes × Result RelayError Str

abbrev pub pushed : MessageRelay → Pushes → Pushes
pushed relay pushes = if relay.push_callback then pushes else []

unfoldable pub send_all : Str → Message → MessageRelay → Sent
unfolding broadcast recipient_keys
send_all team m relay =
    let (agents, pushes) =
      broadcast m (recipient_keys team m.from relay.agents) (relay.agents, []) in
    (record relay { agents = agents }, pushed relay pushes, ok m.message_id)

unfoldable pub send_one : (team to : Str) → Message → MessageRelay → Sent
unfolding store
send_one team to m relay = elim (Dict.lookup (agent_key team to) relay.agents) [
  | none ↦ (relay, [], err (recipient_not_registered to team))
  | some mb ↦ (
    record relay {
      agents = Dict.insert (agent_key team to) (store (envelope_to to m) mb) relay.agents;
    },
    pushed relay ((to, envelope_to to m) ∷ []),
    ok m.message_id,
  )
]

unfoldable pub send : (team to : Str) → Message → MessageRelay → Sent
send team to m relay =
    if ltb max_content_size (length m.content)
    then (relay, [], err (content_too_large (length m.content)))
    else if not (Dict.contains_key (agent_key team m.from) relay.agents)
    then (relay, [], err (sender_not_registered m.from team))
    else if to == codes "*"
    then send_all team m relay
    else send_one team to m relay

-- The `count` oldest messages are drained.
unfoldable pub receive :
    (team agent_name : Str)
    → (limit : ℕ) → MessageRelay
    → MessageRelay × Result RelayError (List TeamMessageEnvelope)
receive team agent_name limit relay = elim (Dict.lookup (agent_key team agent_name) relay.agents) [
  | none ↦ (relay, err (agent_not_registered agent_name team))
  | some mb ↦
      let count = min limit (length mb.inbox) in
      (
        record relay {
          agents =
              Dict.insert (agent_key team agent_name) (record mb { inbox = drop count mb.inbox })
                relay.agents;
        },
        ok (take count mb.inbox),
      )
]

unfoldable pub workspace_id : (team agent_name : Str) → MessageRelay → Option ℕ
workspace_id team agent_name relay =
    Option.map (λ mb. mb.workspace_id) (Dict.lookup (agent_key team agent_name) relay.agents)

unfoldable pub team_agents : Str → Dict Str AgentMailbox → List Str
team_agents team [] = []
team_agents team ((key, mb) ∷ rest) =
    let names = team_agents team rest in if mb.team == team then mb.agent_name ∷ names else names

unfoldable pub inbox_len : (team agent_name : Str) → MessageRelay → Option ℕ
inbox_len team agent_name relay =
    Option.map (λ mb. length mb.inbox) (Dict.lookup (agent_key team agent_name) relay.agents)
