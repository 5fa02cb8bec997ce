-- ===== src/Lib.antt =====
-- The verification library of ssl_ros_bridge, the package that connects ROS 2 with the RoboCup Small
-- Size League: multicast packets of the game controller and of SSL-Vision become ROS messages, a
-- team client speaks with the game controller for the team, and log2bag turns recorded logs into
-- bags.
--
-- Log2bag.antt models ssl_ros_bridge/src/log2bag. Log2bag/Stream.antt is the std::istream as far as
-- it is used (read, gcount, tellg and the state bits), Bytes.antt the little-endian fields of an
-- entry, Reader.antt the class LogReader (open_reader is the constructor, check_header CheckHeader,
-- extract_next_entry ExtractNextEntry in its parts, get_next_message GetNextMessage), Format.antt
-- the format as a writer of it would write it, with what its entries say and how many there are of a
-- type, described without the reader's own functions, and Convert.antt the program log2bag.cpp (log2bag is
-- main). Reader/, Format/ and Convert/ hold the proofs.
--
-- TeamClient.antt models ssl_ros_bridge/src/team_client. Messages.antt has the protocol's messages,
-- Wait.antt is TeamClient::WaitForReply, Client.antt the class TeamClient (connect is Connect,
-- attempt_to_connect_socket AttemptToConnectSocket, and so on), and Node.antt the class
-- TeamClientNode with its four services and its timer. Client/, Wait/ and Node/ hold the proofs;
-- Node/Run.antt puts any sequence of callbacks together.
--
-- GcBridge.antt models ssl_ros_bridge/src/game_controller_bridge: PublishMulticastMessage and the
-- status callback. Interleaving.antt and Pacing.antt let the receiver's thread and the ROS thread
-- take turns, with the wait for the reconnect service in between, Quiet.antt follows a bridge whose
-- client is connected, Listening.antt puts the callback on the receiver, Launch.antt is the
-- constructor, and Subscribers.antt takes the conversion of messages for its parameter.
--
-- Conversion.antt models ssl_ros_bridge/src/core/message_conversion.cpp. An overload of fromProto
-- for a message X is x_from_proto, from the record or data type X to XMsg, the ROS message.
-- Fields.antt has the macros, Enums.antt the enumerations with the constants of the ROS messages,
-- Common.antt vectors, teams and robots, Events.antt the parts of game events in four groups,
-- GameEvents.antt the game event (its oneof is the data type Event; Dispatch.antt is the conversion
-- as a choice by case), Referees.antt the referee packet, Vision.antt the vision packets. Modules
-- Original read messages back. Arithmetic.antt is what the conversion computes with: floating-point
-- products, rclcpp::Time, the quaternions of tf2.
--
-- Core.antt models the rest of ssl_ros_bridge/src/core: Addresses.antt is GetIpAdresses,
-- Receiver.antt the class MulticastReceiver (new_receiver is the constructor, run_receives what its
-- thread does with HandleMulticastReceiveFrom, complete_send HandleUDPSendTo, destroy the
-- destructor), Receiver/ its proofs; Launch.antt has the parameters of the two bridges.
-- VisionBridge.antt is ssl_ros_bridge/src/vision_bridge: the receiver with the callback that
-- publishes, and its constructor in Launch.antt.
--
-- The parts meet where the source's do. Reconnection.antt lets the bridge ask the reconnect service
-- of the team client node, whose answer is ReconnectReply there and what handle_reconnect returns
-- here. log2bag and the bridges take the conversion of messages as a parameter;
-- GcBridge/Subscribers.antt and Log2bag/Playback.antt are about them with that of Conversion.antt.
--
-- Loops take fuel, and `none` is that it ran out. The reader's loops need one round for each sixteen
-- bytes and two more; a wait whose turns are a period apart needs its second over the period and two
-- more. Machine integers wrap as written in the source: entry fields are 32 and 64 bits, the
-- progress bar counts in 64, and a port keeps its 16 low bits. Sockets, clocks, streams and parsers
-- are parameters or environments. The bag writer's open and write are taken not to throw. An exception that leaves a function is a value.
--
-- A float is its bit pattern, and is only copied unless the arithmetic says otherwise. Not modelled
-- are log texts (with ssl_ros_bridge/src/core/protobuf_logging.hpp, a macro that passes log lines
-- on), the ROS graph, launch files, the messages that no conversion reads or writes, and generated
-- code.
pub mod Prelude
pub mod Log2bag
pub mod TeamClient
pub mod GcBridge
pub mod Core
pub mod VisionBridge
pub mod Conversion
pub mod Reconnection
