-- ===== src/Team/RelayExamples.antt =====
-- The message relay at concrete inputs.

use agentiso.Prelude.{
  ◌≡◌, refl, true, some, List, [], ◌∷◌, ◌++◌, Str, codes, ok, str_eq, str_beq, min, length, arith,
}
use agentiso.Prelude.Dict
use agentiso.Team.Names.{validate_name, agent_key, agent_key-injective}
use agentiso.Team.Relay.{
  AgentMailbox, MessageRelay, Message, TeamMessageEnvelope, mailbox, envelope_to, store, send,
  send_one, send_all, receive, unregister_team,
}
use agentiso.Team.Delivery.{AllBounded, sends, step, step-AllBounded, receive-splits}
use agentiso.Team.Broadcast.{send_all-lookup}

abbrev team : Str
team = codes "t"

abbrev lead : Str
lead = codes "lead"

abbrev coder : Str
coder = codes "coder"

abbrev key_of_lead : Str
key_of_lead = codes "t:lead"

abbrev key_of_coder : Str
key_of_coder = codes "t:coder"

abbrev message : Message
message = record {
  from = lead;
  content = codes "hi";
  message_type = codes "text";
  message_id = codes "m1";
  timestamp = codes "now";
}

abbrev coders : AgentMailbox
coders = record (mailbox coder team 2) { inbox = envelope_to coder message ∷ [] }

abbrev relay : MessageRelay
relay = record {
  agents = (key_of_lead, mailbox lead team 1) ∷ (key_of_coder, coders) ∷ [];
  push_callback = true;
}

program : Unit {0}
unfolding agent_key send send_one send_all store receive unregister_team validate_name Dict.lookup
    Dict.insert Dict.retain str_beq
program = tt

relay-AllBounded : AllBounded relay
relay-AllBounded = omega arith

step-AllBounded_example : AllBounded (step (sends team coder message) relay)
step-AllBounded_example = step-AllBounded (sends team coder message) relay relay-AllBounded

receive-splits_example :
    (msgs rest : List TeamMessageEnvelope) × ((receive team coder 5 relay).1 ≡ ok msgs)
    × (Dict.lookup (agent_key team coder) (receive team coder 5 relay).0.agents
        ≡ some (record coders { inbox = rest }))
    × (msgs ++ rest ≡ coders.inbox)
    × (length msgs ≡ min 5 (length coders.inbox))
unfolding program
receive-splits_example = receive-splits team coder 5 relay coders refl

send_all-lookup_example :
    Dict.lookup key_of_coder (send team (codes "*") message relay).0.agents
    ≡ some (record coders { inbox = envelope_to coder message ∷ envelope_to coder message ∷ [] })
unfolding program
send_all-lookup_example =
    send_all-lookup team (codes "*") message relay (codes "m1") key_of_coder (refl, (refl, tt))
      relay-AllBounded refl refl

agent_key-injective_example : (team ≡ team) × (lead ≡ lead)
unfolding program
agent_key-injective_example = agent_key-injective team team lead lead refl refl refl
