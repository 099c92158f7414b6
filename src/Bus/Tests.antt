-- ===== src/Bus/Tests.antt =====
-- Tests of the model of libbb/bb_bus.c, and its theorems at concrete streams.
use nxp_imx95_building_block.Bus.{Bus, max_line, bus_subscribe, bus_ping, bus_poll}
use nxp_imx95_building_block.Bus.Receive.{
  message_line, IsMessage, polls, stream, Fits, polls-messages, polls_stall,
}
use nxp_imx95_building_block.Framing.{lines, join_lines}
use nxp_imx95_building_block.Common.{
  ℕ, ◌+◌, ◌≤◌, ◌≡◌, refl, true, List, [], ◌∷◌, map, arith, length, replicate, length-replicate, All,
  Bytes, codes, starts_with, all, pos, negsuc, after_char, before_char,
}

abbrev bus : Bus
bus = record { fd = pos 3; handler = true; buf = [] }

abbrev stuck : Bus
stuck = record { fd = pos 3; handler = true; buf = replicate 4287 97 }

-- A message in two chunks, cut inside its topic, and another.
abbrev chunks : List Bytes
chunks = codes "PUB /a" ∷ codes "/b on\nPUB t x y\n" ∷ []

abbrev messages : List (Bytes × Bytes)
messages = (codes "/a/b", codes "on") ∷ (codes "t", codes "x y") ∷ []

polls-chunks : polls bus chunks ≡ (messages, bus)
unfolding polls bus_poll lines starts_with before_char after_char
polls-chunks = refl

subscribe_sends :
    bus_subscribe bus (codes "/dev/led/cmd") (pos 17) ≡ (pos 0, codes "SUB /dev/led/cmd\n")
unfolding bus_subscribe
subscribe_sends = refl

ping_answered : bus_ping bus (pos 5) (codes "PONG\n") ≡ (pos 0, codes "PING\n")
unfolding bus_ping starts_with
ping_answered = refl

chunks-Fits : Fits [] chunks
unfolding lines
chunks-Fits = (omega arith, omega arith, (omega arith, omega arith, tt))

All-IsMessage : All IsMessage messages
unfolding all
All-IsMessage = ((refl, refl), ((refl, refl), tt))

same_stream : stream chunks ≡ join_lines (map message_line messages)
unfolding stream join_lines
same_stream = refl

nothing_waits : lines [] ≡ ([], [])
unfolding lines
nothing_waits = refl

stuck_full : max_line ≤ length stuck.buf + 1
stuck_full = omega (arith, length-replicate {A = ℕ} 4287 97)

polls-messages_example : polls bus chunks ≡ (messages, bus)
polls-messages_example =
    polls-messages bus chunks messages refl refl refl chunks-Fits All-IsMessage same_stream

polls_stall_example :
    ((bus_poll stuck (pos 1) (codes "PUB t x\n")).0 ≡ negsuc 0) × (polls stuck chunks ≡ ([], stuck))
polls_stall_example = polls_stall stuck (codes "PUB t x\n") chunks stuck_full
