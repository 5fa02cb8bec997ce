-- ===== src/Conversion/Referees/Original.antt =====
-- A referee message read back from its ROS message.
use ssl_ros_bridge.Prelude.{
  ℕ, ◌*◌, ◌^◌, ◌<◌, ◌≡◌, refl, Option, none, some, List, [], ◌∷◌, map, to_list, false,
}
use ssl_ros_bridge.Conversion.Fields.{first, or_default, copy_optional_enum, first-copy_optional}
use ssl_ros_bridge.Conversion.Arithmetic.{Arithmetic}
use ssl_ros_bridge.Conversion.Enums.{
  normal_first_half_pre, Command, halt, command_number, MatchType, match_type_number,
}
use ssl_ros_bridge.Conversion.Enums.Constants.{
  stage_called, stage_called-stage_number, command_called, command_called-command_number,
  match_type_called, match_type_called-match_type_number,
}
use ssl_ros_bridge.Conversion.GameEvents.{GameEvent, game_event, no_event}
use ssl_ros_bridge.Conversion.GameEvents.Message.{GameEventMsg, game_event_from_proto}
use ssl_ros_bridge.Conversion.GameEvents.Original.{original_header, original_events}
use ssl_ros_bridge.Conversion.GameEvents.Original.Recovered.{
  kept, with_defaults, game_event_recovered,
}
use ssl_ros_bridge.Conversion.Referees.{
  TeamInfo, TeamInfoMsg, team_info_from_proto, GameEventProposalGroup, GameEventProposalGroupMsg,
  game_event_proposal_group_from_proto, Referee, RefereeMsg, referee_from_proto,
}
use ssl_ros_bridge.Conversion.Referees.Timestamps.{
  IsExact, original_microseconds, original_microseconds-time_of_microseconds,
}

unfoldable pub original_team_info : TeamInfoMsg → TeamInfo
original_team_info ros_msg = record {
  name = ros_msg.name;
  score = ros_msg.score;
  red_cards = ros_msg.red_cards;
  yellow_card_times = ros_msg.yellow_card_times;
  yellow_cards = ros_msg.yellow_cards;
  timeouts = ros_msg.timeouts;
  timeout_time = ros_msg.timeout_time;
  goalkeeper = ros_msg.goalkeeper;
  foul_counter = first ros_msg.foul_counter;
  ball_placement_failures = first ros_msg.ball_placement_failures;
  can_place_ball = first ros_msg.can_place_ball;
  max_allowed_bots = first ros_msg.max_allowed_bots;
  bot_substitution_intent = first ros_msg.bot_substitution_intent;
  ball_placement_failures_reached = first ros_msg.ball_placement_failures_reached;
  bot_substitution_allowed = first ros_msg.bot_substitution_allowed;
  bot_substitutions_left = first ros_msg.bot_substitutions_left;
  bot_substitution_time_left = first ros_msg.bot_substitution_time_left;
}

pub original_team_info-team_info_from_proto :
    (t : TeamInfo) → original_team_info (team_info_from_proto t) ≡ t
unfolding original_team_info team_info_from_proto
original_team_info-team_info_from_proto t = simp first-copy_optional

unfoldable pub original_game_event : GameEventMsg → GameEvent
original_game_event ros_msg =
    game_event (original_header ros_msg) (or_default no_event (first (original_events ros_msg)))

-- What is left of a game event.
unfoldable pub remembered_game_event : GameEvent → GameEvent
remembered_game_event (game_event h e) = game_event (with_defaults h) (or_default no_event (kept e))

first-to_list : {A : Type 0} (o : Option A) → first (to_list o) ≡ o
first-to_list none = refl
first-to_list (some a) = refl

original_game_event-game_event_from_proto :
    (g : GameEvent) → original_game_event (game_event_from_proto g) ≡ remembered_game_event g
unfolding original_game_event remembered_game_event
original_game_event-game_event_from_proto (game_event h e) =
    let (header, events) = game_event_recovered h e in
    rw (header, events, first-to_list (kept e)) refl

original_game_events :
    (gs : List GameEvent)
    → map original_game_event (map game_event_from_proto gs) ≡ map remembered_game_event gs
original_game_events [] = refl
original_game_events (g ∷ gs) =
    rw (original_game_event-game_event_from_proto g, original_game_events gs)

unfoldable pub original_proposal : GameEventProposalGroupMsg → GameEventProposalGroup
original_proposal ros_msg = record {
  id = first ros_msg.id;
  game_events = map original_game_event ros_msg.game_events;
  accepted = some ros_msg.accepted;
}

-- What is left of a proposal group: the message's `accepted` is a bool, which is false where the
-- packet's was not set.
unfoldable pub remembered_proposal : GameEventProposalGroup → GameEventProposalGroup
remembered_proposal p = record p {
  game_events = map remembered_game_event p.game_events;
  accepted = some (or_default false p.accepted);
}

original_proposals :
    (ps : List GameEventProposalGroup)
    → map original_proposal (map game_event_proposal_group_from_proto ps)
      ≡ map remembered_proposal ps
unfolding original_proposal remembered_proposal game_event_proposal_group_from_proto
original_proposals [] = refl
original_proposals (p ∷ ps) =
    rw (first-copy_optional p.id, original_game_events p.game_events, original_proposals ps)

-- An enumerator is read back by the constants of the message.
abbrev called : {A : Type 0} → (ℕ → Option A) → List ℕ → Option A
called meaning [] = none
called meaning (n ∷ rest) = meaning n

first-match_type :
    (o : Option MatchType) → called match_type_called (copy_optional_enum match_type_number o) ≡ o
unfolding copy_optional_enum
first-match_type none = refl
first-match_type (some m) = match_type_called-match_type_number m

first-command :
    (o : Option Command) → called command_called (copy_optional_enum command_number o) ≡ o
unfolding copy_optional_enum
first-command none = refl
first-command (some c) = command_called-command_number c

-- All of it but the designated position, whose coordinates were divided.
unfoldable pub original_referee : RefereeMsg → Referee
original_referee ros_msg = record {
  source_identifier = first ros_msg.source_identifier;
  match_type = called match_type_called ros_msg.match_type;
  packet_timestamp = original_microseconds ros_msg.timestamp;
  stage = or_default normal_first_half_pre (stage_called ros_msg.stage);
  stage_time_left = first ros_msg.stage_time_left;
  command = or_default halt (command_called ros_msg.command);
  command_counter = ros_msg.command_counter;
  command_timestamp = original_microseconds ros_msg.command_timestamp;
  yellow = original_team_info ros_msg.yellow;
  blue = original_team_info ros_msg.blue;
  designated_position = none;
  blue_team_on_positive_half = first ros_msg.blue_team_on_positive_half;
  next_command = called command_called ros_msg.next_command;
  game_events = map original_game_event ros_msg.game_events;
  game_event_proposals = map original_proposal ros_msg.game_event_proposals;
  current_action_time_remaining = first ros_msg.current_action_time_remaining;
  status_message = first ros_msg.status_message;
}

-- What is left of a referee packet.
unfoldable pub remembered_referee : Referee → Referee
remembered_referee r = record r {
  designated_position = none;
  game_events = map remembered_game_event r.game_events;
  game_event_proposals = map remembered_proposal r.game_event_proposals;
}

-- From the ROS message of a referee packet the packet can be read back, but for the designated
-- position, for what game events lose, and for whether a proposal group's `accepted` was set, which
-- counts as false if it was not: given a clock that is exact up to the last second that the message
-- can hold, and timestamps up to then.
pub original_referee-referee_from_proto :
    (arithmetic : Arithmetic) (r : Referee)
    → IsExact arithmetic
    → r.packet_timestamp < 2 ^ 31 * 1_000_000
    → r.command_timestamp < 2 ^ 31 * 1_000_000
    → original_referee (referee_from_proto arithmetic r) ≡ remembered_referee r
unfolding original_referee remembered_referee referee_from_proto
original_referee-referee_from_proto arithmetic r exact packet_in_range command_in_range = simp (
  first-copy_optional,
  first-match_type,
  first-command,
  stage_called-stage_number,
  command_called-command_number,
  original_team_info-team_info_from_proto,
  original_game_events,
  original_proposals,
  original_microseconds-time_of_microseconds arithmetic exact r.packet_timestamp packet_in_range,
  original_microseconds-time_of_microseconds arithmetic exact r.command_timestamp command_in_range,
)
