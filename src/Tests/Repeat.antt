-- ===== src/Tests/Repeat.antt =====
-- An unsequenced command of group 5 that comes twice.
use enet.Base.{◌+◌, ◌≡◌, true, [], refl}
use enet.Wire.{Protocol, Body, kind}
use enet.Packet.{malloc, packet_create}
use enet.Incoming.Queue.{queue_incoming_command, route, insert, admit, obtain, new_incoming}
use enet.Handlers.Data.{
  handle_send_unsequenced, is_acceptable, enter_window, is_stale_group, is_success,
}
use enet.Handlers.Repeat.{handle_send_unsequenced-repeat}
use enet.Tests.{session}

abbrev command : Protocol
command = record {
  command = 9 + 64;
  channel_id = 0;
  reliable_sequence_number = 0;
  body = Body.send_unsequenced 5 0;
}

accepted : (handle_send_unsequenced command 5 0 [] (session [])).0 ≡ true
unfolding handle_send_unsequenced is_acceptable enter_window is_stale_group is_success
    queue_incoming_command kind route insert admit obtain new_incoming malloc packet_create
accepted = refl

handle_send_unsequenced-repeat_example :
    handle_send_unsequenced command 5 0 [] (handle_send_unsequenced command 5 0 [] (session [])).1
    ≡ (true, (handle_send_unsequenced command 5 0 [] (session [])).1)
handle_send_unsequenced-repeat_example =
    handle_send_unsequenced-repeat command 5 0 [] (session []) refl accepted
